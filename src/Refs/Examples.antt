-- ===== src/Refs/Examples.antt =====
-- The theorems on nontainer/store/refs.py at small refs, and test runs.
use nontainer.Prelude.{concat, ◌≡◌, refl, none, some}
use nontainer.Refs.{Ref, parse, show_ref, partition, partition_last, tag, at_tag}
use nontainer.Refs.RoundTrip.{path_read, parse-show_ref, tag-at_tag}

abbrev page : Ref
page = record {
  session = concat "@store/pub/app/v1";
  commit = concat "abc";
  path = some (concat "/app@2");
}

parse-show_ref_example :
    parse (show_ref page) ≡ some (record page { path = path_read (some (concat "/app@2")) })
parse-show_ref_example =
    parse-show_ref page
      (record { some_session = refl; some_commit = refl; no_at = refl; no_colon = refl })

tag_run : tag (at_tag (concat "app/v1") (concat "abc")) ≡ some (concat "app/v1")
tag_run = tag-at_tag (concat "app/v1") (concat "abc")

no_commit : parse (concat "session@") ≡ none
unfolding parse partition partition_last
no_commit = refl
