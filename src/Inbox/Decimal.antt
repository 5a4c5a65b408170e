-- ===== src/Inbox/Decimal.antt =====
-- Decimal numerals: Python's `str(n)`, and `int(s)` over the digits that `\d` matches. Which
-- code points those are is Unicode's table, the parameter `digit`; it holds the ASCII digits.
use nontainer.Prelude.{
  Text, ℕ, zero, suc, ◌+◌, ◌*◌, ◌/◌, ◌%◌, ◌-◌, ◌<◌, ◌≤◌, ◌≡◌, refl, sym, ◌∙◌, ap, true, false, ◌&&◌,
  leb, if◌then◌else◌, Option, none, some, inl, inr, [], ◌∷◌, ◌++◌, arith, ltb, Bool-cases,
}

-- At most `fuel` digits, in front of `rest`.
print_fuel : ℕ → ℕ → Text → Text
print_fuel zero n rest = rest
print_fuel (suc fuel) n rest = elim (ltb n 10) [
  | true ↦ (48 + n) ∷ rest
  | false ↦ print_fuel fuel (n / 10) ((48 + n % 10) ∷ rest)
]

print_fuel-append :
    (fuel n : ℕ) (xs ys : Text) → print_fuel fuel n (xs ++ ys) ≡ print_fuel fuel n xs ++ ys
unfolding print_fuel
print_fuel-append zero n xs ys = refl
print_fuel-append (suc fuel) n xs ys =
    ground (arith, print_fuel-append fuel (n / 10) ((48 + n % 10) ∷ xs) ys)

-- A number is below ten to the power of itself, so its own size is fuel enough.
unfoldable pub print : ℕ → Text
unfolding print_fuel
print n = print_fuel (suc n) n []

-- More fuel prints the same.
print_fuel_enough :
    (f g n : ℕ) (rest : Text) → n < f → n < g → print_fuel f n rest ≡ print_fuel g n rest
unfolding print_fuel
print_fuel_enough zero g n rest h k = absurd (omega arith)
print_fuel_enough (suc f) zero n rest h k = absurd (omega arith)
print_fuel_enough (suc f) (suc g) n rest h k = elim (Bool-cases (ltb n 10)) [
  | inl small ↦ rw (small, print_fuel) refl
  | inr large ↦
      rw (large, print_fuel)
        (print_fuel_enough f g (n / 10) ((48 + n % 10) ∷ rest) (ground arith) (ground arith))
]

print_fuel_step :
    (f n : ℕ) (rest : Text)
    → 10 ≤ n
    → print_fuel (suc f) n rest ≡ print_fuel f (n / 10) ((48 + n % 10) ∷ rest)
unfolding print_fuel
print_fuel_step f n rest h =
    let large : ltb n 10 ≡ false = ground arith in rw (large, print_fuel) refl

pub print_small : (n : ℕ) → n < 10 → print n ≡ (48 + n) ∷ []
unfolding print print_fuel
print_small n h = ground arith

-- The last digit stands behind the others.
pub print_large : (n : ℕ) → 10 ≤ n → print n ≡ print (n / 10) ++ (48 + n % 10) ∷ []
unfolding print
print_large n h =
    print_fuel_step n n [] h
    ∙ (print_fuel_enough n (suc (n / 10)) (n / 10) ((48 + n % 10) ∷ []) (omega arith) (omega arith)
        ∙ print_fuel-append (suc (n / 10)) (n / 10) [] ((48 + n % 10) ∷ []))

-- What `digit` must know of ASCII: the ten digits, and that a blank and a newline are none.
pub record IsDigits (digit : ℕ → Option ℕ) : Type 0 where
  pub ascii : (d : ℕ) → d < 10 → digit (48 + d) ≡ some d
  pub blank : digit 32 ≡ none
  pub newline : digit 10 ≡ none

module _ (digit : ℕ → Option ℕ) where
  -- `\d*` from here on: the number read, after `acc`, how many digits, and what follows them.
  unfoldable pub read_digits : ℕ → ℕ → Text → ℕ × ℕ × Text
  read_digits acc count [] = (acc, count, [])
  read_digits acc count (c ∷ s) = elim (digit c) [
    | none ↦ (acc, count, c ∷ s)
    | some d ↦ read_digits (acc * 10 + d) (suc count) s
  ]

  module _ (digits : IsDigits digit) where
    read_one :
        (acc count d m k : ℕ) (rest : Text)
        → d < 10
        → acc * 10 + d ≡ m
        → suc count ≡ k
        → read_digits acc count ((48 + d) ∷ rest) ≡ read_digits m k rest
    unfolding read_digits
    read_one acc count d m k rest h e f =
        rw (digits.ascii d h, read_digits) (λ i. read_digits (e i) (f i) rest)

    -- Reading a printed number gives it back, has read at least one digit, and goes on behind it.
    read-print_fuel :
        (fuel n count : ℕ) (rest : Text)
        → n < fuel
        → (k : ℕ) × (read_digits 0 count (print_fuel fuel n rest)
            ≡ read_digits n (count + suc k) rest)
    unfolding print_fuel
    read-print_fuel zero n count rest h = absurd (omega arith)
    read-print_fuel (suc fuel) n count rest h = elim (Bool-cases (ltb n 10)) [
      | inl small ↦ (
        0,
        rw (small, print_fuel)
            (read_one 0 count n n (count + 1) rest (ground arith) (omega arith) (omega arith)),
      )
      | inr large ↦
          let (k, e) = read-print_fuel fuel (n / 10) count ((48 + n % 10) ∷ rest) (ground arith) in
          (
            suc k,
            rw (large, print_fuel)
                (e
                  ∙ read_one (n / 10) (count + suc k) (n % 10) n (count + suc (suc k)) rest
                      (omega arith) (omega arith) (omega arith)),
          )
    ]

    -- A printed number, whatever follows it, is read back, from one digit or more.
    pub read-print :
        (n : ℕ) (rest : Text)
        → (k : ℕ) × (read_digits 0 0 (print n ++ rest) ≡ read_digits n (suc k) rest)
    unfolding print
    read-print n rest =
        let (k, e) = read-print_fuel (suc n) n 0 rest (omega arith) in
        (
          k,
          rw (← print_fuel-append (suc n) n [] rest)
              (e ∙ ap (λ c. read_digits n c rest) (omega arith)),
        )

-- The ASCII part of the table.
unfoldable pub ascii_digit : ℕ → Option ℕ
ascii_digit c = if leb 48 c && leb c 57 then some (c - 48) else none

pub ascii_digit-IsDigits : IsDigits ascii_digit
unfolding ascii_digit
ascii_digit-IsDigits = record { ascii = λ d h. ground arith; blank = refl; newline = refl }

-- Two numbers that print alike are one.
pub print-injective : (m n : ℕ) → print m ≡ print n → m ≡ n
print-injective m n h =
    let (j, e) = read-print ascii_digit ascii_digit-IsDigits m [] in
    let (k, f) = read-print ascii_digit ascii_digit-IsDigits n [] in
    let same : read_digits ascii_digit m (suc j) [] ≡ read_digits ascii_digit n (suc k) [] =
      sym e ∙ (ap (λ t. read_digits ascii_digit 0 0 (t ++ [])) h ∙ f) in
    unfold read_digits in ap (λ (r : ℕ × ℕ × Text). r.0) same
