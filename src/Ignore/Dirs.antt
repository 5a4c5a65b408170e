-- ===== src/Ignore/Dirs.antt =====
-- Why nontainer/ignore.py ignores a path, and everything below it.
use nontainer.Prelude.{
  Text, concat, Bool, true, false, none, some, [], ◌∷◌, ◌++◌, ◌≡◌, refl, any, ◌||◌, text_eq,
  text_eq_iff, starts_with, starts_with-append, is_some, if◌then◌else◌, arith, Bool-cases, inl, inr,
  append_assoc, sym, ◌∙◌, ◌⊎◌,
}
use nontainer.Ignore.{Patterns, match, why_relative, ignored_dirs, authoring, pattern_matched}
use nontainer.Ignore.Below.{match_below, any_weaker}

starts_with_longer : (p s t : Text) → starts_with p s ≡ true → starts_with p (s ++ t) ≡ true
unfolding starts_with
starts_with_longer [] s t h = refl
starts_with_longer (c ∷ p) [] t h = absurd (cc)
starts_with_longer (c ∷ p) (d ∷ s) t h = ground (arith, starts_with_longer p s t)

or_true : (b : Bool) → (b || true) ≡ true
or_true true = refl
or_true false = refl

some_reason :
    (a b : Bool)
    → is_some (if a then some authoring else if b then some pattern_matched else none) ≡ (a || b)
some_reason true b = refl
some_reason false true = refl
some_reason false false = refl

in_dir : Text → Text → Bool
in_dir rel d = text_eq rel d || starts_with (d ++ concat "/") rel

or_both :
    (a b c d : Bool)
    → (a ≡ true → c ≡ true)
    → (b ≡ true → d ≡ true)
    → (a || b) ≡ true
    → (c || d) ≡ true
or_both true b c d f g h = rw (f refl) refl
or_both false b c d f g h = ground (arith, g h)

in_dir_cases :
    (rel more d : Text)
    → (text_eq rel d ≡ true) ⊎ (text_eq rel d ≡ false)
    → (text_eq rel d || starts_with (d ++ concat "/") rel) ≡ true
    → (text_eq (rel ++ (47 ∷ more)) d || starts_with (d ++ concat "/") (rel ++ (47 ∷ more))) ≡ true
in_dir_cases rel more d (inl e) h =
    rw
      (
        (text_eq_iff rel d).0 e,
        ← append_assoc d (concat "/") more,
        starts_with-append (d ++ concat "/") more,
      )
      (or_true (text_eq ((d ++ concat "/") ++ more) d))
in_dir_cases rel more d (inr o) h =
    let below : starts_with (d ++ concat "/") rel ≡ true = ground arith in
    rw (starts_with_longer (d ++ concat "/") rel (47 ∷ more) below)
      (or_true (text_eq (rel ++ (47 ∷ more)) d))

in_dir_below : (rel more d : Text) → in_dir rel d ≡ true → in_dir (rel ++ (47 ∷ more)) d ≡ true
unfolding in_dir
in_dir_below rel more d h = in_dir_cases rel more d (Bool-cases (text_eq rel d)) h

why_relative_some :
    (ps : Patterns) (rel : Text)
    → is_some (why_relative ps rel) ≡ (any (in_dir rel) ignored_dirs || match ps rel)
unfolding why_relative in_dir
why_relative_some ps rel = some_reason (any (in_dir rel) ignored_dirs) (match ps rel)

-- A path relative to the root that is ignored is ignored with every path below it.
pub why_relative_below :
    (ps : Patterns) (rel more : Text)
    → is_some (why_relative ps rel) ≡ true
    → is_some (why_relative ps (rel ++ (47 ∷ more))) ≡ true
why_relative_below ps rel more h =
    why_relative_some ps (rel ++ (47 ∷ more))
    ∙ or_both (any (in_dir rel) ignored_dirs) (match ps rel)
        (any (in_dir (rel ++ (47 ∷ more))) ignored_dirs) (match ps (rel ++ (47 ∷ more)))
        (any_weaker (in_dir rel) (in_dir (rel ++ (47 ∷ more))) ignored_dirs (in_dir_below rel more))
        (match_below ps rel more) (sym (why_relative_some ps rel) ∙ h)
