-- ===== src/Compaction/Examples.antt =====
-- The theorems on nontainer/compaction.py at small histories and stores, and test runs.
use nontainer.Prelude.{
  Text, concat, ℕ, ◌≡◌, refl, Bool, true, false, Option, some, List, [], ◌∷◌, ◌++◌, arith, ◌==◌,
  member, text_eq, starts_with, keys,
}
use nontainer.Values.{Value, null, text, number}
use nontainer.Planes.{Kv, returned, keys_under}
use nontainer.Inbox.Decimal.{print}
use nontainer.Compaction.Items.{Item, tool_result, said, transcript, reduce}
use nontainer.Compaction.Reduced.{Reduced, reduce-Reduced}
use nontainer.Compaction.Chunks.{chunks}
use nontainer.Compaction.Packed.{Packed, chunks-Packed}
use nontainer.Compaction.Folds.{
  Fold, record_fold, fold_key, in_force, print_six, is_ours, zeros, latest_of, reversed, is_present,
  fold_keys,
}
use nontainer.Compaction.Recorded.{Added, Numbered, record_fold-Added}
use nontainer.Compaction.Sorted.{numbered}
use nontainer.Compaction.InForce.{InForce, in_force-InForce}

abbrev asked : Item
asked = record { role = concat "user"; text = concat "please look at the log"; kind = said }

abbrev answered : Item
answered = record {
  role = concat "tool";
  text = concat "first line of the log, which goes on for quite a while";
  kind = tool_result;
}

abbrev blank : ℕ → Bool
blank c = c == 32

reduce-Reduced_example :
    Reduced (asked ∷ answered ∷ []) (reduce blank 11 2000 (asked ∷ answered ∷ []))
reduce-Reduced_example = reduce-Reduced blank 11 2000 (asked ∷ answered ∷ [])

chunks-Packed_example :
    (out : List (List Item)) × (chunks (asked ∷ answered ∷ asked ∷ []) 16 ≡ some out)
    × Packed 16 (asked ∷ answered ∷ asked ∷ []) out
chunks-Packed_example = chunks-Packed (asked ∷ answered ∷ asked ∷ []) 16 (omega arith)

abbrev fold_of : Text → Fold
fold_of anchor = record {
  through = text anchor;
  summary = text (concat "done so far");
  runs = number 2;
  tokens_before = number 900;
  tokens_after = number 100;
  model = text (concat "m");
  at = number 5;
  first = null;
}

abbrev clock : Text → Value
clock key = number 0

abbrev plain : Kv
plain = record { items = (concat "notes.txt", text []) ∷ []; batched = true; faults = [] }

record_fold-Added_example :
    (kv' : Kv) × (record_fold false (fold_of (concat "m1")) plain ≡ returned (fold_key 1) kv')
    × Added clock 0 (fold_of (concat "m1")) plain kv'
unfolding Numbered numbered fold_keys keys_under keys starts_with
record_fold-Added_example =
    record_fold-Added clock 0 (fold_of (concat "m1")) plain refl (omega arith) tt

abbrev two_folds : List Fold
two_folds = fold_of (concat "m1") ∷ fold_of (concat "m2") ∷ []

in_force-InForce_example :
    (r : Option Fold) × (in_force two_folds (concat "m1" ∷ concat "m3" ∷ []) ≡ some r)
    × InForce (concat "m1" ∷ concat "m3" ∷ []) two_folds r
in_force-InForce_example =
    in_force-InForce (concat "m1" ∷ concat "m3" ∷ []) two_folds
      ((concat "m1", refl), ((concat "m2", refl), tt))

print_six_pads : print_six 42 ≡ concat "000042"
unfolding print_six zeros print
print_six_pads = refl

transcript_run : transcript (asked ∷ []) ≡ concat "[user]" ++ (10 ∷ concat "please look at the log")
unfolding transcript
transcript_run = refl

earlier_in_force :
    in_force two_folds (concat "m1" ∷ concat "m3" ∷ []) ≡ some (some (fold_of (concat "m1")))
unfolding in_force latest_of reversed is_present member text_eq
earlier_in_force = refl

is_ours_run : is_ours (text (concat "nontainer-compaction:7")) ≡ true
unfolding is_ours starts_with
is_ours_run = refl
