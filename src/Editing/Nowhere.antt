-- ===== src/Editing/Nowhere.antt =====
-- Where a search of nontainer/editing.py that counts no match, or one match, finds one.
use nontainer.Prelude.{
  Text, ℕ, zero, suc, ◌+◌, ◌≤◌, ◌<◌, true, some, [], ◌∷◌, ◌++◌, ◌≡◌, ◌⊎◌, ap, is_some, length,
  Option-cases, inl, inr, arith,
}
use nontainer.Editing.Matching.{Matcher, count_matches}

-- No match begins past the codes that the search passes over where it counts none.
pub nowhere :
    (m : Matcher) (a t : Text) (k : ℕ)
    → count_matches m k (a ++ t) ≡ 0
    → is_some (m t) ≡ true
    → length a < k
unfolding count_matches
nowhere m [] t (suc k) h e = omega arith
nowhere m [] [] zero h e = elim (Option-cases (m [])) [
  | inl n ↦ absurd (cc (rw (n) at e))
  | inr (n, s) ↦ absurd (omega (arith, rw (s, count_matches) at h))
]
nowhere m [] (c ∷ t) zero h e = elim (Option-cases (m (c ∷ t))) [
  | inl n ↦ absurd (cc (rw (n) at e))
  | inr (zero, s) ↦ absurd (omega (arith, rw (s, count_matches) at h))
  | inr (suc n, s) ↦ absurd (omega (arith, rw (s, count_matches) at h))
]
nowhere m (c ∷ a) t (suc k) h e = omega (arith, nowhere m a t k h e)
nowhere m (c ∷ a) t zero h e = elim (Option-cases (m (c ∷ (a ++ t)))) [
  | inl n ↦ absurd (omega (arith, nowhere m a t 0 (rw (n, count_matches) at h) e))
  | inr (zero, s) ↦ absurd (omega (arith, rw (s, count_matches) at h))
  | inr (suc n, s) ↦ absurd (omega (arith, rw (s, count_matches) at h))
]

-- A place is not before another, and, where it is behind it, it is in the match that is there.
abbrev pub Over : Text → ℕ → Text → Type 0
Over before size a =
    (length before ≤ length a) × ((length a ≤ length before) ⊎ (length a < length before + size))

pub Over-suc :
    (c d : ℕ) (before a : Text) (size : ℕ) → Over before size a → Over (c ∷ before) size (d ∷ a)
Over-suc c d before a size (h, inl g) = (omega (arith, h), inl (omega (arith, g)))
Over-suc c d before a size (h, inr g) = (omega (arith, h), inr (omega (arith, g)))

abbrev pub rest_of : Text → Text
rest_of [] = []
rest_of (c ∷ t) = t

-- Where the first match is at the beginning, and is the only one.
pub first_alone :
    (m : Matcher) (a t u : Text) (n : ℕ)
    → a ++ t ≡ u
    → m u ≡ some n
    → count_matches m 0 u ≡ 1
    → is_some (m t) ≡ true
    → Over [] n a
unfolding count_matches
first_alone m [] t u n w s h e = (omega arith, inl (omega arith))
first_alone m (c ∷ a) t [] n w s h e = absurd (cc w)
first_alone m (c ∷ a) t (d ∷ u) zero w s h e =
    let g = ap rest_of w in
    absurd (omega (arith, nowhere m a t 0 (rw (g) (omega (arith, rw (s, count_matches) at h))) e))
first_alone m (c ∷ a) t (d ∷ u) (suc n) w s h e =
    let g = ap rest_of w in
    let l = nowhere m a t n (rw (g) (omega (arith, rw (s, count_matches) at h))) e in
    (omega arith, inr (omega (arith, l)))
