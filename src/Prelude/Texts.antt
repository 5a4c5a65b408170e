-- ===== src/Prelude/Texts.antt =====
-- Python's `str`, as the list of its code points.
use Prim.Native.Nat.{ℕ}
use Prim.Native.Char.{code}
use Prim.Native.String.{String}
use mathlib.Core.Path.{◌≡◌, refl}
use mathlib.Core.Logic.{◌↔◌}
use mathlib.Core.Bool.{Bool, true, false, ◌&&◌}
use mathlib.Core.List.{List, [], ◌∷◌, ◌++◌}
use native.Mathlib.Omega.{arith}
use nontainer.Prelude.Tests.{◌==◌, if◌then◌else◌}
use nontainer.Prelude.Lists.{any}

abbrev pub Text : Type 0
Text = List ℕ

-- The text of a literal.
abbrev pub concat : String → Text
concat String.[] = []
concat (String.◌∷◌ c s) = code c ∷ concat s

unfoldable pub text_eq : Text → Text → Bool
text_eq [] [] = true
text_eq [] (d ∷ t) = false
text_eq (c ∷ s) [] = false
text_eq (c ∷ s) (d ∷ t) = (c == d) && text_eq s t

pub text_eq_iff : (s t : Text) → (text_eq s t ≡ true) ↔ (s ≡ t)
unfolding text_eq
text_eq_iff [] [] = (λ _. refl, λ _. refl)
text_eq_iff [] (d ∷ t) = (λ h. cc, λ h. cc)
text_eq_iff (c ∷ s) [] = (λ h. cc, λ h. cc)
text_eq_iff (c ∷ s) (d ∷ t) =
    (λ h. ground (arith, text_eq_iff s t), λ h. ground (arith, text_eq_iff s t))

pub text_eq_refl : (s : Text) → text_eq s s ≡ true
text_eq_refl s = (text_eq_iff s s).1 refl

-- `t.startswith(s)`, the prefix first.
unfoldable pub starts_with : Text → Text → Bool
starts_with [] t = true
starts_with (c ∷ s) [] = false
starts_with (c ∷ s) (d ∷ t) = (c == d) && starts_with s t

pub starts_with-append : (s t : Text) → starts_with s (s ++ t) ≡ true
unfolding starts_with
starts_with-append [] t = refl
starts_with-append (c ∷ s) t = ground (arith, starts_with-append s t)

abbrev pub contains_code : ℕ → Text → Bool
contains_code c = any (λ d. c == d)

-- `t.rstrip()`, for what `blank` holds to be stripped.
abbrev pub strip_right : (ℕ → Bool) → Text → Text
strip_right blank [] = []
strip_right blank (c ∷ s) =
    let rest = strip_right blank s in
    elim rest [ [] ↦ if blank c then [] else c ∷ [] | d ∷ t ↦ c ∷ d ∷ t ]

-- `t.lstrip()`
abbrev pub strip_left : (ℕ → Bool) → Text → Text
strip_left blank [] = []
strip_left blank (c ∷ s) = let rest = strip_left blank s in if blank c then rest else c ∷ s
