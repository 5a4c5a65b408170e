-- ===== src/Conversation/Examples.antt =====
-- The theorems on nontainer/conversation.py at small stores.
use nontainer.Prelude.{
  Text, concat, true, false, some, [], ◌∷◌, ◌++◌, Dict, lookup, insert, keys, member, text_eq, ◌≡◌,
  refl, inl,
}
use nontainer.Values.{Value, null, text, number, list, mapping, field, end, texts, or_else, IsStr}
use nontainer.Planes.{Kv, returned, raised, get, set_item, conversation_run_prefix}
use nontainer.Conversation.IndexData.{Index, to_dict, from_dict, from_legacy, from_dict-to_dict}
use nontainer.Conversation.{
  write, Change, put, apply, apply_from, held, found_in, put_back, restore_to, keep_record,
  read_index, rebind,
}
use nontainer.Conversation.Applied.{apply_raised}
use nontainer.Conversation.Changed.{Applied, apply-Applied}
use nontainer.Conversation.Written.{Written, write-Written, read_index-write}
use nontainer.Conversation.Migrated.{runs_kept}
use nontainer.Conversation.Rebound.{Rebound, rebind_bound}
use nontainer.Conversation.Removed.{Removed}

abbrev pub str : Value → Text
str (text t) = t
str _ = []

pub str-IsStr : IsStr str
str-IsStr = record { of_text = λ t. refl }

-- A head on the legacy plane, with one run, beside a file and a fold.
abbrev pub legacy_head : Kv
legacy_head = record {
  items =
      (
        concat "__agno__/session",
        mapping (
            field (concat "session_id") (text (concat "a"))
              (field (concat "run_ids") (list (texts (concat "r1" ∷ []))) end)),
      )
      ∷ (concat "__agno__/runs/r1", number 7)
      ∷ (concat "__compaction__/fold/000001", number 8)
      ∷ (concat "notes.md", number 9)
      ∷ [];
  batched = true;
  faults = [];
}

abbrev pub legacy_index : Index
legacy_index = record {
  harness = concat "agno";
  session = text (concat "a");
  runs = concat "r1" ∷ [];
  forked_from = null;
  legacy = true;
}

pub read_legacy : read_index str legacy_head ≡ some (some legacy_index)
unfolding read_index get lookup from_legacy text_eq
read_legacy = refl

from_dict-to_dict_example :
    from_dict str (to_dict legacy_index) ≡ some (record legacy_index { legacy = false })
from_dict-to_dict_example = from_dict-to_dict str str-IsStr legacy_index

-- The second of two changes fails.
abbrev changes : Dict Change
changes = (concat "notes.md", put (number 1)) ∷ (concat "new", put (number 2)) ∷ []

abbrev failing : Kv
failing = record {
  items = (concat "notes.md", number 9) ∷ [];
  batched = true;
  faults = false ∷ true ∷ [];
}

abbrev failed : Kv
failed = record failing { faults = [] }

apply_fails : apply changes failing ≡ raised failed
unfolding apply apply_from held found_in put_back restore_to set_item lookup text_eq insert keys
apply_fails = refl

apply_raised_example :
    lookup (concat "notes.md") failed.items ≡ lookup (concat "notes.md") failing.items
apply_raised_example = apply_raised changes failing failed tt apply_fails (concat "notes.md")

apply-Applied_example : (after : Kv) × Applied (apply changes legacy_head) changes legacy_head after
unfolding lookup text_eq
apply-Applied_example = apply-Applied changes legacy_head (refl, (refl, tt)) tt

write-Written_example :
    (after : Kv) × Written legacy_index keep_record [] (concat "r2" ∷ []) legacy_head after
write-Written_example =
    write-Written legacy_index keep_record [] (concat "r2" ∷ []) legacy_head tt tt

abbrev written : Kv
written = (write-Written legacy_index keep_record [] [] legacy_head tt tt).0

read_index-write_example :
    read_index str written ≡ some (some (record legacy_index { legacy = false }))
read_index-write_example =
    read_index-write str legacy_index keep_record [] [] legacy_head written str-IsStr
      (write-Written legacy_index keep_record [] [] legacy_head tt tt).1

runs_kept_example :
    (after : Kv) × (write legacy_index keep_record [] [] legacy_head ≡ returned tt after)
    × (lookup (conversation_run_prefix ++ concat "r1") after.items ≡ some (number 7))
unfolding get lookup text_eq member
runs_kept_example =
    runs_kept str legacy_head legacy_index legacy_index (concat "r1") (number 7) tt (inl refl)
      read_legacy refl refl refl refl

rebind_bound_example :
    (after : Kv) × (rebind str (concat "b") (concat "p") legacy_head ≡ returned true after)
    × (read_index str after
        ≡ some (
            some (record legacy_index {
              session = text (concat "b");
              forked_from = or_else (text (concat "a")) (text (concat "p"));
              legacy = false;
            })))
    × Rebound legacy_index legacy_head after
unfolding text_eq get lookup
rebind_bound_example =
    rebind_bound str str-IsStr (concat "b") (concat "p") legacy_head legacy_index tt (inl refl)
      read_legacy refl
