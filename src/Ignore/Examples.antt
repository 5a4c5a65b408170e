-- ===== src/Ignore/Examples.antt =====
-- The theorem on nontainer/ignore.py at one pattern, and test runs.
use nontainer.Prelude.{concat, ◌≡◌, refl, true, false, [], ◌∷◌, ◌++◌, text_eq, starts_with, is_some}
use nontainer.Paths.{split_slash, join_slash}
use nontainer.Ignore.{
  Patterns, match, prefixes, rule_takes, translate, translate_from, why_relative,
}
use nontainer.Ignore.Dirs.{why_relative_below}

-- `build/`
abbrev builds : Patterns
builds = record {
  source = concat "build/" ∷ [];
  rules = record { matches = text_eq (concat "build"); dir_only = true } ∷ [];
}

why_relative_below_example :
    is_some (why_relative builds (concat "app/logs" ++ (47 ∷ concat "today.txt"))) ≡ true
unfolding why_relative text_eq starts_with
why_relative_below_example = why_relative_below builds (concat "app/logs") (concat "today.txt") refl

translate_run : translate (concat "**/*.[!a]") ≡ concat "(?:.*/)?[^/]*\\.[^a]"
unfolding translate translate_from starts_with
translate_run = refl

file_of_that_name : match builds (concat "build") ≡ false
unfolding match prefixes rule_takes text_eq split_slash join_slash
file_of_that_name = refl
