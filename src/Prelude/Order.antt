-- ===== src/Prelude/Order.antt =====
-- Texts in the order of their code points, and what `sorted` and `set` make of lists of them.
use mathlib.Core.Path.{◌≡◌, refl}
use mathlib.Core.Logic.{inl, inr}
use mathlib.Core.Bool.{Bool, true, false, ◌&&◌, ◌||◌}
use mathlib.Core.List.{List, [], ◌∷◌}
use native.Mathlib.Omega.{arith}
use nontainer.Prelude.Tests.{if◌then◌else◌, ltb, ◌==◌, Bool-cases}
use nontainer.Prelude.Lists.{any}
use nontainer.Prelude.Texts.{Text, text_eq, text_eq_iff, text_eq_refl}
use nontainer.Prelude.Dicts.{member}

-- `s < t` for strings: by their code points.
unfoldable pub text_ltb : Text → Text → Bool
text_ltb [] [] = false
text_ltb [] (d ∷ t) = true
text_ltb (c ∷ s) [] = false
text_ltb (c ∷ s) (d ∷ t) = ltb c d || ((c == d) && text_ltb s t)

unfoldable pub sort_in : Text → List Text → List Text
sort_in k [] = k ∷ []
sort_in k (j ∷ js) = let rest = sort_in k js in if text_ltb k j then k ∷ j ∷ js else j ∷ rest

-- `sorted(ks)`
unfoldable pub sort : List Text → List Text
sort [] = []
sort (k ∷ ks) = sort_in k (sort ks)

-- The texts without their repetitions: a set's elements.
unfoldable pub distinct : List Text → List Text
distinct [] = []
distinct (k ∷ ks) = let rest = distinct ks in if member k rest then rest else k ∷ rest

-- `sorted(set(ks))`
unfoldable pub sorted_set : List Text → List Text
sorted_set ks = sort (distinct ks)

pub member-sort_in :
    (k j : Text) (js : List Text) → member k (sort_in j js) ≡ (text_eq j k || member k js)
unfolding member sort_in
member-sort_in k j [] = refl
member-sort_in k j (i ∷ js) = ground (arith, member-sort_in k j js)

pub member-sort : (k : Text) (ks : List Text) → member k (sort ks) ≡ member k ks
unfolding member sort
member-sort k [] = refl
member-sort k (j ∷ ks) = ground (arith, member-sort_in k j (sort ks), member-sort k ks)

pub member-distinct : (k : Text) (ks : List Text) → member k (distinct ks) ≡ member k ks
unfolding member distinct
member-distinct k [] = refl
member-distinct k (j ∷ ks) = ground (arith, text_eq_iff j k, member-distinct k ks)

-- Sorting and dropping repetitions keeps which texts are there.
pub member-sorted_set : (k : Text) (ks : List Text) → member k (sorted_set ks) ≡ member k ks
unfolding sorted_set
member-sorted_set k ks = ground (arith, member-sort k (distinct ks), member-distinct k ks)

-- What a member has, some member has.
pub any-member :
    (p : Text → Bool) (k : Text) (ys : List Text)
    → member k ys ≡ true
    → p k ≡ true
    → any p ys ≡ true
unfolding member
any-member p k [] m h = absurd (cc)
any-member p k (y ∷ ys) m h = elim (Bool-cases (text_eq y k)) [
  | inl e ↦ rw ((text_eq_iff y k).0 e, h) refl
  | inr d ↦ ground (arith, any-member p k ys)
]

-- Where some member has it, one is found.
pub any_found :
    (p : Text → Bool) (ks : List Text)
    → any p ks ≡ true
    → (k : Text) × (member k ks ≡ true) × (p k ≡ true)
unfolding member
any_found p [] h = absurd (cc)
any_found p (k ∷ ks) h = elim (Bool-cases (p k)) [
  | inl e ↦ (k, rw (text_eq_refl k) refl, e)
  | inr d ↦ let (j, m, e) = any_found p ks (ground arith) in (j, ground arith, e)
]

-- What some member has, some member of a list that holds all of them has.
pub any_more :
    (p : Text → Bool) (xs ys : List Text)
    → ((k : Text) → member k xs ≡ true → member k ys ≡ true)
    → any p xs ≡ true
    → any p ys ≡ true
unfolding member
any_more p [] ys sub h = absurd (cc)
any_more p (x ∷ xs) ys sub h = elim (Bool-cases (p x)) [
  | inl e ↦ any-member p x ys (sub x (rw (text_eq_refl x) refl)) e
  | inr d ↦ any_more p xs ys (λ k m. sub k (ground arith)) (ground arith)
]
