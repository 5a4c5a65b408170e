-- ===== src/Prelude/Prefixes.antt =====
-- Texts that begin alike, and the membership of texts in lists that are filtered or prefixed.
use mathlib.Core.Path.{◌≡◌, refl}
use mathlib.Core.Bool.{Bool, true, ◌&&◌, ◌||◌}
use mathlib.Core.List.{List, [], ◌∷◌, ◌++◌}
use native.Mathlib.Omega.{arith}
use nontainer.Prelude.Lists.{keep}
use nontainer.Prelude.Texts.{Text, text_eq, text_eq_iff, starts_with}
use nontainer.Prelude.Dicts.{member}

pub text_eq-append : (p s t : Text) → text_eq (p ++ s) (p ++ t) ≡ text_eq s t
unfolding text_eq
text_eq-append [] s t = refl
text_eq-append (c ∷ p) s t = ground (arith, text_eq-append p s t)

pub starts_with_split : (p k : Text) → starts_with p k ≡ true → (rest : Text) × (k ≡ p ++ rest)
unfolding starts_with
starts_with_split [] k h = (k, refl)
starts_with_split (c ∷ p) [] h = cc
starts_with_split (c ∷ p) (d ∷ k) h =
    let (rest, e) = starts_with_split p k (ground arith) in (rest, ground arith)

pub member-append :
    (k : Text) (xs ys : List Text) → member k (xs ++ ys) ≡ (member k xs || member k ys)
unfolding member
member-append k [] ys = refl
member-append k (x ∷ xs) ys = ground (arith, member-append k xs ys)

pub member-keep :
    (p : Text → Bool) (k : Text) (ts : List Text) → member k (keep p ts) ≡ (p k && member k ts)
unfolding member
member-keep p k [] = ground arith
member-keep p k (t ∷ ts) = ground (arith, text_eq_iff t k, member-keep p k ts)
