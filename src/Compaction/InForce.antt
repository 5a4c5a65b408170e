-- ===== src/Compaction/InForce.antt =====
-- Which fold `in_force` of nontainer/compaction.py takes.
use nontainer.Prelude.{
  Text, Bool, true, false, List, Option, none, some, [], ◌∷◌, ◌++◌, ◌≡◌, refl, All, member,
  append_assoc, append-nil, Bool-cases, inl, inr, ap, ◌∙◌,
}
use nontainer.Values.{text}
use nontainer.Compaction.Folds.{Fold, is_present, latest_of, reversed, in_force}

-- The anchor of each fold is a string.
abbrev pub Anchored : List Fold → Type 0
Anchored = All (λ f. (t : Text) × (f.through ≡ text t))

pub Gone : List Text → Fold → Type 0
Gone ids f = is_present ids f.through ≡ some false

-- The fold in force is the latest one whose anchor is among the ids.
pub data InForce (ids : List Text) (fs : List Fold) : Option Fold → Type 0 where
  the_latest :
      (before : List Fold) (fold : Fold) (after : List Fold)
      → fs ≡ before ++ fold ∷ after
      → is_present ids fold.through ≡ some true
      → All (Gone ids) after
      → InForce ids fs (some fold)
  no_anchor : All (Gone ids) fs → InForce ids fs none

module _ (ids : List Text) where
  present_of :
      (f : Fold) (t : Text) (b : Bool)
      → f.through ≡ text t
      → member t ids ≡ b
      → is_present ids f.through ≡ some b
  unfolding is_present
  present_of f t b e m = rw (e) (ap some m)

  All-append_one :
      (xs : List Fold) (f : Fold) → All (Gone ids) xs → Gone ids f → All (Gone ids) (xs ++ f ∷ [])
  All-append_one [] f h g = (g, tt)
  All-append_one (x ∷ xs) f (a, h) g = (a, All-append_one xs f h g)

  -- The loop, over folds whose later ones are gone.
  latest_found :
      (fs after : List Fold)
      → All (λ f. (t : Text) × (f.through ≡ text t)) fs
      → All (Gone ids) after
      → (r : Option Fold) × (latest_of ids fs ≡ some r) × InForce ids (reversed fs ++ after) r
  unfolding latest_of reversed Gone
  latest_found [] after h g = (none, refl, no_anchor g)
  latest_found (f ∷ fs) after ((t, e), h) g = elim (Bool-cases (member t ids)) [
    | inl m ↦
        let here : is_present ids f.through ≡ some true = present_of f t true e m in
        (
          some f,
          rw (here, latest_of) refl,
          the_latest (reversed fs) f after (append_assoc (reversed fs) (f ∷ []) after) here g,
        )
    | inr m ↦
        let gone : is_present ids f.through ≡ some false = present_of f t false e m in
        let (r, found, force) = latest_found fs (f ∷ after) h (gone, g) in
        (r, rw (gone, latest_of) found, rw (append_assoc (reversed fs) (f ∷ []) after) force)
  ]

reversed-append_one : (fs : List Fold) (f : Fold) → reversed (fs ++ f ∷ []) ≡ f ∷ reversed fs
unfolding reversed
reversed-append_one [] f = refl
reversed-append_one (g ∷ fs) f = rw (reversed-append_one fs f) refl

reversed-reversed : (fs : List Fold) → reversed (reversed fs) ≡ fs
unfolding reversed
reversed-reversed [] = refl
reversed-reversed (f ∷ fs) =
    reversed-append_one (reversed fs) f ∙ ap (λ gs. f ∷ gs) (reversed-reversed fs)

Anchored-append_one :
    (fs : List Fold) (f : Fold) (t : Text)
    → Anchored fs
    → f.through ≡ text t
    → Anchored (fs ++ f ∷ [])
Anchored-append_one [] f t h e = ((t, e), tt)
Anchored-append_one (g ∷ fs) f t (a, h) e = (a, Anchored-append_one fs f t h e)

Anchored-reversed : (fs : List Fold) → Anchored fs → Anchored (reversed fs)
unfolding reversed
Anchored-reversed [] h = tt
Anchored-reversed (f ∷ fs) ((t, e), h) =
    Anchored-append_one (reversed fs) f t (Anchored-reversed fs h) e

-- For folds whose anchors are strings `in_force` returns: the latest fold whose anchor is among the
-- ids, or nothing where no fold's is.
pub in_force-InForce :
    (ids : List Text) (fs : List Fold)
    → Anchored fs
    → (r : Option Fold) × (in_force fs ids ≡ some r) × InForce ids fs r
unfolding in_force reversed
in_force-InForce ids fs h =
    let (r, found, force) = latest_found ids (reversed fs) [] (Anchored-reversed fs h) tt in
    (r, found, rw⁻¹ (append-nil fs, reversed-reversed fs) force)
