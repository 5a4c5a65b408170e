-- ===== src/Compaction/Folds.antt =====
-- The record of nontainer/compaction.py: `Fold`, where folds are kept, and which is in force.
use nontainer.Prelude.{
  Text, concat, ℕ, zero, suc, ◌-◌, Bool, true, false, List, Option, none, some, [], ◌∷◌, ◌++◌,
  if◌then◌else◌, text_eq, ltb, leb, ◌==◌, ◌||◌, length, member, starts_with, sort,
}
use nontainer.Values.{Value, null, text, mapping, number, list, Fields, end, field}
use nontainer.Planes.{Kv, Ran, returned, raised, get, set_item, keys_under, compaction_prefix}
use nontainer.Inbox.Decimal.{print}

abbrev pub fold_prefix : Text
fold_prefix = compaction_prefix ++ concat "fold/"

abbrev pub own_mark : Text
own_mark = concat "nontainer-compaction:"

unfoldable pub is_ours : Value → Bool
is_ours (text t) = starts_with own_mark t
is_ours _ = false

-- A fold holds what its stored mapping holds, which nothing checks the types of.
pub record Fold : Type 0 where
  pub through : Value
  pub summary : Value
  pub runs : Value
  pub tokens_before : Value
  pub tokens_after : Value
  pub model : Value
  pub at : Value
  pub first : Value

unfoldable pub to_dict : Fold → Fields
to_dict f = field (concat "through") f.through (
    field (concat "summary") f.summary (
      field (concat "runs") f.runs (
        field (concat "tokens_before") f.tokens_before (
          field (concat "tokens_after") f.tokens_after (
            field (concat "model") f.model
              (field (concat "at") f.at (field (concat "first") f.first end)))))))

-- `data[k]`, where `k in data`.
abbrev pub field_at : Text → Fields → Option Value
field_at k end = none
field_at k (field j v d) = if text_eq j k then some v else field_at k d

abbrev pub field_or : Value → Text → Fields → Value
field_or default k d = elim (field_at k d) [ none ↦ default | some v ↦ v ]

-- `Fold.from_dict`, with the clock's reading for an `at` that is missing; `none` where it raises.
unfoldable pub from_dict : Value → Fields → Option Fold
from_dict now d = elim (field_at (concat "through") d) [
  | none ↦ none
  | some through ↦ elim (field_at (concat "summary") d) [
    | none ↦ none
    | some summary ↦ some record {
      through = through;
      summary = summary;
      runs = field_or (number 0) (concat "runs") d;
      tokens_before = field_or (number 0) (concat "tokens_before") d;
      tokens_after = field_or (number 0) (concat "tokens_after") d;
      model = field_or (text []) (concat "model") d;
      at = field_or now (concat "at") d;
      first = field_or null (concat "first") d;
    }
  ]
]

unfoldable pub fold_keys : Kv → List Text
fold_keys kv = keys_under (fold_prefix ∷ []) kv.items

module _ (clock : Text → Value) where
  -- The fold of a key: nothing where no mapping stands there, and `none` where reading it raises.
  abbrev pub fold_at : Text → Value → Option (List Fold)
  fold_at key (mapping d) = elim (from_dict (clock key) d) [ none ↦ none | some f ↦ some (f ∷ []) ]
  fold_at key _ = some []

  abbrev pub with_first : Option (List Fold) → Option (List Fold) → Option (List Fold)
  with_first (some fs) (some gs) = some (fs ++ gs)
  with_first _ _ = none

  unfoldable pub folds_at : Kv → List Text → Option (List Fold)
  folds_at kv [] = some []
  folds_at kv (key ∷ ks) = with_first (fold_at key (get kv key)) (folds_at kv ks)

  unfoldable pub folds : Kv → Option (List Fold)
  folds kv = folds_at kv (sort (fold_keys kv))

unfoldable pub zeros : ℕ → Text
zeros zero = []
zeros (suc n) = 48 ∷ zeros n

-- `f"{n:06d}"`
unfoldable pub print_six : ℕ → Text
print_six n = zeros (6 - length (print n)) ++ print n

unfoldable pub fold_key : ℕ → Text
fold_key n = fold_prefix ++ print_six n

-- `record`, on a workspace that may be frozen: the new fold's key.
unfoldable pub record_fold : Bool → Fold → Kv → Ran Text
record_fold frozen fold kv =
    let key = fold_key (suc (length (fold_keys kv))) in
    let (written, kv') = set_item key (mapping (to_dict fold)) kv in
    if frozen then raised kv else if written then returned key kv' else raised kv'

-- `v in present`, for the set of the ids; a value that has no hash raises.
unfoldable pub is_present : List Text → Value → Option Bool
is_present ids (text t) = some (member t ids)
is_present ids (list vs) = none
is_present ids (mapping d) = none
is_present ids _ = some false

-- The loop of `in_force`, over the folds from the latest on.
unfoldable pub latest_of : List Text → List Fold → Option (Option Fold)
latest_of ids [] = some none
latest_of ids (fold ∷ folds) = elim (is_present ids fold.through) [
  | none ↦ none
  | some true ↦ some (some fold)
  | some false ↦ latest_of ids folds
]

unfoldable pub reversed : List Fold → List Fold
reversed [] = []
reversed (f ∷ fs) = reversed fs ++ f ∷ []

unfoldable pub in_force : List Fold → List Text → Option (Option Fold)
in_force folds ids = latest_of ids (reversed folds)

pub record Policy : Type 0 where
  pub budget : ℕ
  pub window : Option ℕ

-- `Policy(budget, window)`; `none` where it raises. A negative budget raises as 0 does.
unfoldable pub create_policy : ℕ → Option ℕ → Option Policy
create_policy budget window =
    let policy : Policy = record { budget = budget; window = window } in
    elim window [
      | none ↦ if budget == 0 then none else some policy
      | some w ↦ if (budget == 0) || ltb w budget then none else some policy
    ]

unfoldable pub due : Policy → ℕ → Bool
due policy tokens = leb policy.budget tokens

unfoldable pub fits : Policy → ℕ → Bool
fits policy tokens = elim policy.window [ none ↦ true | some w ↦ ltb tokens w ]
