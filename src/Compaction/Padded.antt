-- ===== src/Compaction/Padded.antt =====
-- The keys of folds, in the order of their numbers: `f"{n:06d}"` sorts as numbers do below 10 ** 6.
use nontainer.Prelude.{
  text_ltb, Text, ℕ, zero, suc, ◌+◌, ◌-◌, ◌*◌, ◌/◌, ◌%◌, ◌≤◌, ◌<◌, ◌≡◌, refl, sym, ◌∙◌, ap, true,
  false, [], ◌∷◌, ◌++◌, length, ltb, arith, length-append, Bool-cases, inl, inr, text_eq,
  text_eq_iff, append_assoc,
}
use nontainer.Inbox.Decimal.{print, print_small, print_large}
use nontainer.Compaction.Folds.{zeros, print_six, fold_key, fold_prefix}

-- The last `w` digits of a number.
digits : ℕ → ℕ → Text
digits zero n = []
digits (suc w) n = digits w (n / 10) ++ (48 + n % 10) ∷ []

ten_to : ℕ → ℕ
ten_to zero = 1
ten_to (suc w) = 10 * ten_to w

length-digits : (w n : ℕ) → length (digits w n) ≡ w
unfolding digits
length-digits zero n = refl
length-digits (suc w) n =
    omega (arith, length-append (digits w (n / 10)) ((48 + n % 10) ∷ []), length-digits w (n / 10))

text_ltb-append :
    (s t : Text) (c d : ℕ)
    → length s ≡ length t
    → text_ltb s t ≡ true
    → text_ltb (s ++ c ∷ []) (t ++ d ∷ []) ≡ true
unfolding text_ltb
text_ltb-append [] [] c d e h = absurd (cc)
text_ltb-append [] (y ∷ t) c d e h = absurd (omega arith)
text_ltb-append (x ∷ s) [] c d e h = absurd (omega arith)
text_ltb-append (x ∷ s) (y ∷ t) c d e h = ground (arith, text_ltb-append s t c d)

text_ltb-same : (p s t : Text) → text_ltb (p ++ s) (p ++ t) ≡ text_ltb s t
unfolding text_ltb
text_ltb-same [] s t = refl
text_ltb-same (c ∷ p) s t = ground (arith, text_ltb-same p s t)

text_ltb_one : (c d : ℕ) → c < d → text_ltb (c ∷ []) (d ∷ []) ≡ true
unfolding text_ltb
text_ltb_one c d h = ground arith

text_ltb-digits : (w i j : ℕ) → i < j → j < ten_to w → text_ltb (digits w i) (digits w j) ≡ true
unfolding digits ten_to
text_ltb-digits zero i j h b = absurd (omega arith)
text_ltb-digits (suc w) i j h b = elim (Bool-cases (ltb (i / 10) (j / 10))) [
  | inl lt ↦
      text_ltb-append (digits w (i / 10)) (digits w (j / 10)) (48 + i % 10) (48 + j % 10)
        (length-digits w (i / 10) ∙ sym (length-digits w (j / 10)))
        (text_ltb-digits w (i / 10) (j / 10) (ground arith) (omega arith))
  | inr ge ↦
      let same : i / 10 ≡ j / 10 = ground arith in
      rw (same) (
        text_ltb-same (digits w (j / 10)) ((48 + i % 10) ∷ []) ((48 + j % 10) ∷ [])
        ∙ text_ltb_one (48 + i % 10) (48 + j % 10) (omega arith))
]

zeros_end : (w : ℕ) → zeros w ++ 48 ∷ [] ≡ zeros (suc w)
unfolding zeros
zeros_end zero = refl
zeros_end (suc w) = ap (λ t. 48 ∷ t) (zeros_end w)

digits_zero : (w : ℕ) → digits w 0 ≡ zeros w
unfolding digits zeros
digits_zero zero = refl
digits_zero (suc w) = rw (digits_zero w) (zeros_end w)

digits_small : (w n : ℕ) → n < 10 → digits (suc w) n ≡ zeros w ++ (48 + n) ∷ []
unfolding digits
digits_small w n h =
    let none_left : n / 10 ≡ 0 = omega arith in
    let one : n % 10 ≡ n = omega arith in rw (none_left, one, digits_zero w) refl

pad : ℕ → Text → Text
pad w t = zeros (w - length t) ++ t

pad-append_one : (w : ℕ) (t : Text) (c : ℕ) → pad (suc w) (t ++ c ∷ []) ≡ pad w t ++ c ∷ []
unfolding pad
pad-append_one w t c =
    let e : suc w - length (t ++ c ∷ []) ≡ w - length t = omega (arith, length-append t (c ∷ [])) in
    rw (e) (sym (append_assoc (zeros (w - length t)) t (c ∷ [])))

ten_to_two : (w : ℕ) → 2 ≤ ten_to w → 1 ≤ w
unfolding ten_to
ten_to_two zero h = absurd (omega arith)
ten_to_two (suc w) h = omega arith

padded : (w n : ℕ) → 1 ≤ w → n < ten_to w → pad w (print n) ≡ digits w n
unfolding pad ten_to digits
padded zero n h b = absurd (omega arith)
padded (suc w) n h b = elim (Bool-cases (ltb n 10)) [
  | inl small ↦
      let one : suc w - 1 ≡ w = omega arith in
      rw (print_small n (ground arith), one) (sym (digits_small w n (ground arith)))
  | inr large ↦
      let many : 10 ≤ n = ground arith in
      rw (print_large n many) (
        pad-append_one w (print (n / 10)) (48 + n % 10)
        ∙ ap (λ t. t ++ (48 + n % 10) ∷ [])
            (padded w (n / 10) (ten_to_two w (omega arith)) (omega arith)))
]

-- Up to 999,999 the keys of folds stand in the order of their numbers.
pub fold_key_lt : (i j : ℕ) → i < j → j < 1000000 → text_ltb (fold_key i) (fold_key j) ≡ true
unfolding fold_key print_six pad ten_to
fold_key_lt i j h b =
    text_ltb-same fold_prefix (print_six i) (print_six j)
    ∙ rw (padded 6 i (omega arith) (omega arith), padded 6 j (omega arith) (omega arith))
        (text_ltb-digits 6 i j h (omega arith))

text_ltb_irrefl : (t : Text) → text_ltb t t ≡ false
unfolding text_ltb
text_ltb_irrefl [] = refl
text_ltb_irrefl (c ∷ t) = ground (arith, text_ltb_irrefl t)

ltb_unequal : (s t : Text) → text_ltb s t ≡ true → s ≡ t → false ≡ true
ltb_unequal s t h e = sym (text_ltb_irrefl t) ∙ (ap (λ x. text_ltb x t) (sym e) ∙ h)

-- Of two keys in order, neither is the other.
pub text_ltb_distinct :
    (s t : Text) → text_ltb s t ≡ true → (text_eq s t ≡ false) × (text_eq t s ≡ false)
text_ltb_distinct s t h = (
  elim (Bool-cases (text_eq s t)) [
    | inl e ↦ absurd (cc (ltb_unequal s t h ((text_eq_iff s t).0 e)))
    | inr d ↦ d
  ],
  elim (Bool-cases (text_eq t s)) [
    | inl e ↦ absurd (cc (ltb_unequal s t h (sym ((text_eq_iff t s).0 e))))
    | inr d ↦ d
  ],
)
