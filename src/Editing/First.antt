-- ===== src/Editing/First.antt =====
-- The first match of a search of nontainer/editing.py.
use nontainer.Prelude.{
  Text, ℕ, zero, suc, true, none, some, [], ◌∷◌, ◌++◌, ◌≡◌, refl, sym, ap, ◌∙◌, ltb, drop, is_some,
  append-nil, Option-cases, inl, inr,
}
use nontainer.Editing.Matching.{Matcher, count_matches, replace_first}
use nontainer.Editing.Nowhere.{Over, Over-suc, first_alone, rest_of}

-- The first match of a search, and what replacing it leaves.
pub record First (m : Matcher) (new content : Text) : Type 0 where
  pub before : Text
  pub at : Text
  pub size : ℕ
  pub whole : content ≡ before ++ at
  pub found : m at ≡ some size
  pub result : replace_first m new content ≡ before ++ (new ++ drop size at)
  pub alone :
      count_matches m 0 content ≡ 1
      → (a t : Text) → a ++ t ≡ content
      → is_some (m t) ≡ true
      → Over before size a

later_alone :
    (m : Matcher) (c : ℕ) (u : Text)
    → m (c ∷ u) ≡ none
    → (before : Text) (size : ℕ)
    → (count_matches m 0 (c ∷ u) ≡ 1
        → (a t : Text) → a ++ t ≡ u
        → is_some (m t) ≡ true
        → Over before size a)
    → count_matches m 0 (c ∷ u) ≡ 1
    → (a t : Text) → a ++ t ≡ c ∷ u
    → is_some (m t) ≡ true
    → Over (c ∷ before) size a
later_alone m c u e before size g h [] t w s = absurd (cc (rw (w, e) at s))
later_alone m c u e before size g h (d ∷ a) t w s =
    Over-suc c d before a size (g h a t (ap rest_of w) s)

later :
    (m : Matcher) (new : Text) (c : ℕ) (t : Text)
    → m (c ∷ t) ≡ none
    → First m new t
    → First m new (c ∷ t)
unfolding replace_first count_matches
later m new c t e f = record {
  before = c ∷ f.before;
  at = f.at;
  size = f.size;
  whole = ap (λ u. c ∷ u) f.whole;
  found = f.found;
  result = rw (e, replace_first) (ap (λ u. c ∷ u) f.result);
  alone = later_alone m c t e f.before f.size (λ h. f.alone (rw (e, count_matches) at h));
}

drop_nothing : (n : ℕ) → drop {A = ℕ} n [] ≡ []
drop_nothing zero = refl
drop_nothing (suc n) = refl

pub first_found :
    (m : Matcher) (new : Text) (content : Text)
    → ltb 0 (count_matches m 0 content) ≡ true
    → First m new content
unfolding count_matches replace_first
first_found m new [] h = elim (Option-cases (m [])) [
  | inl e ↦ absurd (cc (rw (e, count_matches) at h))
  | inr (n, e) ↦ record {
    before = [];
    at = [];
    size = n;
    whole = refl;
    found = e;
    result = rw (e, replace_first) (sym (ap (λ u. new ++ u) (drop_nothing n) ∙ append-nil new));
    alone = λ h a t w s. first_alone m a t [] n w e h s;
  }
]
first_found m new (c ∷ t) h = elim (Option-cases (m (c ∷ t))) [
  | inl e ↦ later m new c t e (first_found m new t (rw (e, count_matches) at h))
  | inr (n, e) ↦ record {
    before = [];
    at = c ∷ t;
    size = n;
    whole = refl;
    found = e;
    result = rw (e, replace_first) refl;
    alone = λ one a t' w s. first_alone m a t' (c ∷ t) n w e one s;
  }
]
