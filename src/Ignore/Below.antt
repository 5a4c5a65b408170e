-- ===== src/Ignore/Below.antt =====
-- What nontainer/ignore.py ignores it ignores with everything below it.
use nontainer.Prelude.{
  Text, ℕ, ◌≤◌, Bool, true, false, List, [], ◌∷◌, ◌++◌, ◌≡◌, refl, sym, ◌∙◌, ◌==◌, length, is_empty,
  any, ◌||◌, map, if◌then◌else◌, arith, length-append, any-append, Bool-cases, inl, inr,
}
use nontainer.Paths.{split_slash}
use nontainer.Ignore.{Rule, Patterns, prefixes, rule_takes, match}

module _ {A : Type 0} where
  pub any_weaker :
      (f g : A → Bool) (xs : List A)
      → ((x : A) → f x ≡ true → g x ≡ true)
      → any f xs ≡ true
      → any g xs ≡ true
  any_weaker f g [] w h = h
  any_weaker f g (x ∷ xs) w h = elim (Bool-cases (f x)) [
    | inl e ↦ rw (w x e) refl
    | inr d ↦ ground (arith, any_weaker f g xs w)
  ]

  any-map :
      {B : Type 0} (f : B → Bool) (m : A → B) (xs : List A)
      → any f (map m xs) ≡ any (λ x. f (m x)) xs
  any-map f m [] = refl
  any-map f m (x ∷ xs) = rw (any-map f m xs) refl

any-prefixes_step :
    (f : List Text → Bool) (x : Text) (xs : List Text)
    → any f (prefixes (x ∷ xs)) ≡ (any (λ ps. f (x ∷ ps)) (prefixes xs) || f (x ∷ []))
unfolding prefixes
any-prefixes_step f x xs =
    any-append f (map (λ ps. x ∷ ps) (prefixes xs)) ((x ∷ []) ∷ [])
    ∙ rw (any-map f (λ ps. x ∷ ps) (prefixes xs)) (ground arith)

-- A longer path has the prefixes of a shorter one.
any-prefixes :
    (f g : List Text → Bool) (xs ys : List Text)
    → ((p : List Text) → f p ≡ true → g p ≡ true)
    → any f (prefixes xs) ≡ true
    → any g (prefixes (xs ++ ys)) ≡ true
unfolding prefixes
any-prefixes f g [] ys w h = absurd (cc)
any-prefixes f g (x ∷ xs) ys w h =
    let shorter : (any (λ ps. f (x ∷ ps)) (prefixes xs) || f (x ∷ [])) ≡ true =
      sym (any-prefixes_step f x xs) ∙ h in
    any-prefixes_step g x (xs ++ ys) ∙ elim (Bool-cases (any (λ ps. f (x ∷ ps)) (prefixes xs))) [
      | inl e ↦
          rw (any-prefixes (λ ps. f (x ∷ ps)) (λ ps. g (x ∷ ps)) xs ys (λ ps. w (x ∷ ps)) e) refl
      | inr d ↦ let last : g (x ∷ []) ≡ true = w (x ∷ []) (ground arith) in ground arith
    ]

split_slash_some : (s : Text) → (p : Text) × (ps : List Text) × (split_slash s ≡ p ∷ ps)
unfolding split_slash
split_slash_some [] = ([], [], refl)
split_slash_some (c ∷ s) = elim (Bool-cases (c == 47)) [
  | inl e ↦ ([], split_slash s, rw (e) refl)
  | inr d ↦ let (p, ps, e) = split_slash_some s in (c ∷ p, ps, rw (d, e) refl)
]

split_slash-append : (s t : Text) → split_slash (s ++ (47 ∷ t)) ≡ split_slash s ++ split_slash t
unfolding split_slash
split_slash-append [] t = refl
split_slash-append (c ∷ s) t = elim (Bool-cases (c == 47)) [
  | inl e ↦ rw (e, split_slash-append s t) refl
  | inr d ↦ let (p, ps, e) = split_slash_some s in rw (d, split_slash-append s t, e) refl
]

rule_longer :
    (n m : ℕ) (parts : List Text)
    → n ≤ m
    → (rule : Rule) → rule_takes n parts rule ≡ true
    → rule_takes m parts rule ≡ true
unfolding rule_takes
rule_longer n m parts le rule h = ground arith

hit_only : (b hit : Bool) → (if b then false else hit) ≡ true → (b ≡ false) × (hit ≡ true)
hit_only true hit h = absurd (cc)
hit_only false hit h = (refl, h)

rules_there : (a b : Bool) → (a || b) ≡ false → a ≡ false
rules_there true b h = h
rules_there false b h = refl

longer_there : (s t : Text) → is_empty (s ++ (47 ∷ t)) ≡ false
longer_there [] t = refl
longer_there (c ∷ s) t = refl

module _ (ps : Patterns) where
  -- Whether some rule takes a path of the parts, of `n` in all.
  takes : ℕ → List Text → Bool
  takes n parts = any (rule_takes n parts) ps.rules

  takes_longer : (n m : ℕ) (parts : List Text) → n ≤ m → takes n parts ≡ true → takes m parts ≡ true
  unfolding takes
  takes_longer n m parts le h =
      any_weaker (rule_takes n parts) (rule_takes m parts) ps.rules (rule_longer n m parts le) h

  hits : Text → Bool
  hits rel = any (takes (length (split_slash rel))) (prefixes (split_slash rel))

  hits_below : (rel more : Text) → hits rel ≡ true → hits (rel ++ (47 ∷ more)) ≡ true
  unfolding hits
  hits_below rel more h = rw (split_slash-append rel more) (
      any-prefixes (takes (length (split_slash rel)))
        (takes (length (split_slash rel ++ split_slash more))) (split_slash rel) (split_slash more)
        (λ p.
          takes_longer (length (split_slash rel)) (length (split_slash rel ++ split_slash more)) p
            (omega (arith, length-append (split_slash rel) (split_slash more))))
        h)

  -- What the patterns ignore they ignore with every path below it.
  pub match_below : (rel more : Text) → match ps rel ≡ true → match ps (rel ++ (47 ∷ more)) ≡ true
  unfolding match takes hits
  match_below rel more h =
      let (ruled, hit) = hit_only (is_empty ps.rules || is_empty rel) (hits rel) h in
      rw (rules_there (is_empty ps.rules) (is_empty rel) ruled, longer_there rel more)
        (hits_below rel more hit)
