-- ===== src/Inbox/Render/RoundTrip.antt =====
-- `split` undoes `render`.
use nontainer.Prelude.{
  Text, ℕ, zero, suc, ◌+◌, ◌-◌, ◌*◌, ◌≡◌, refl, ◌∙◌, ap, sym, ◌==◌, ◌||◌, Bool, true, false, Option,
  none, some, inl, inr, List, [], ◌∷◌, ◌++◌, append_assoc, append-nil, ◌⊎◌, length, length-append,
  drop, take-append-drop, take-length-append, drop-length-append, arith, contains_code, any-append,
  Option-cases, starts_with, starts_with-append, text_eq, text_eq_iff,
}
use nontainer.Inbox.Notes.{Note}
use nontainer.Inbox.Decimal.{IsDigits, read_digits, read-print}
use nontainer.Inbox.Render.{
  Frame, framer, join_framed, render, mark, trailer, trailer_head, trailer_tail, strip, ◌>>=◌,
  closed, cut, match_trailer, search_trailer, split,
}

strip-append : (p s : Text) → strip p (p ++ s) ≡ some s
unfolding strip
strip-append [] s = refl
strip-append (c ∷ p) s = ground (arith, strip-append p s)

strip_sound : (p s rest : Text) → strip p s ≡ some rest → s ≡ p ++ rest
unfolding strip
strip_sound [] s rest h = ground arith
strip_sound (c ∷ p) [] rest h = cc
strip_sound (c ∷ p) (d ∷ s) rest h = ground (arith, strip_sound p s rest)

starts_with-grow : (p s t : Text) → starts_with p s ≡ true → starts_with p (s ++ t) ≡ true
unfolding starts_with
starts_with-grow [] s t h = refl
starts_with-grow (c ∷ p) [] t h = cc
starts_with-grow (c ∷ p) (d ∷ s) t h = ground (arith, starts_with-grow p s t)

cut-append :
    (at n : ℕ) (bare rest : Text)
    → at ≡ length bare + n
    → starts_with mark rest ≡ true
    → cut (bare ++ rest) at n ≡ (bare, rest)
unfolding cut
cut-append at n bare rest e h =
    let start : at - n ≡ length bare = omega arith in
    rw start (simp (drop-length-append, take-length-append, h) (ground arith))

cut_halves :
    (text : Text) (at n : ℕ)
    → ((cut text at n).0 ++ (cut text at n).1 ≡ text)
      × (((cut text at n).1 ≡ []) ⊎ (starts_with mark (cut text at n).1 ≡ true))
unfolding cut
cut_halves text at n = ground (arith, append-nil text, take-append-drop (at - n) text)

closed_block :
    (o : Option Text) (block : Text)
    → (o >>= λ body. let b = mark ++ body in some (b ++ trailer (length b))) ≡ some block
    → (body : Text) × (block ≡ (mark ++ body) ++ trailer (length (mark ++ body)))
closed_block none block h = cc
closed_block (some body) block h = (body, cc)

render-block :
    (frame : Option Frame) (note : Note) (notes : List Note) (block : Text)
    → render frame (note ∷ notes) ≡ some block
    → (body : Text) × (block ≡ (mark ++ body) ++ trailer (length (mark ++ body)))
unfolding render
render-block frame note notes block h = closed_block (join_framed (framer frame) note notes) block h

or-true : (b : Bool) → (b || true) ≡ true
or-true true = refl
or-true false = refl

abbrev newline : ℕ
newline = 10

module _ (digit : ℕ → Option ℕ) (digits : IsDigits digit) where
  read_digits-tail :
      (n count : ℕ) → read_digits digit n count trailer_tail ≡ (n, count, trailer_tail)
  unfolding read_digits
  read_digits-tail n count = rw (digits.blank, read_digits)

  -- A trailer is matched where it begins.
  match-trailer : (n : ℕ) → match_trailer digit (trailer n) ≡ some n
  unfolding trailer match_trailer
  match-trailer n =
      let (k, e) = read-print digit digits n trailer_tail in rw (e ∙ read_digits-tail n (suc k))

  read_digits-newline :
      (acc count : ℕ) (s : Text)
      → contains_code newline s ≡ contains_code newline (read_digits digit acc count s).2
  unfolding read_digits
  read_digits-newline acc count [] = refl
  read_digits-newline acc count (c ∷ s) = elim (Option-cases (digit c)) [
    | inl e ↦ rw (e, read_digits)
    | inr (d, e) ↦
        rw (e, read_digits)
          (ground (arith, read_digits-newline (acc * 10 + d) (suc count) s, digits.newline))
  ]

  closed-newline :
      (n : ℕ) (rest : Text)
      → closed (read_digits digit 0 0 rest) ≡ some n
      → contains_code newline rest ≡ false
  unfolding text_eq
  closed-newline n rest h =
      rw (read_digits-newline 0 0 rest) (closed_tail (read_digits digit 0 0 rest) h)
    where
      closed_tail : (r : ℕ × ℕ × Text) → closed r ≡ some n → contains_code newline r.2 ≡ false
      closed_tail (m, zero, rest') e = cc
      closed_tail (m, suc count, rest') e =
          let same : rest' ≡ trailer_tail = ground (arith, text_eq_iff rest' trailer_tail) in
          rw same

  -- Behind its first code a match holds no newline.
  match-newline :
      (c n : ℕ) (s : Text) → match_trailer digit (c ∷ s) ≡ some n → contains_code newline s ≡ false
  unfolding match_trailer
  match-newline c n s h = elim (Option-cases (strip trailer_head (c ∷ s))) [
    | inl e ↦ cc (e, h)
    | inr (rest, e) ↦
        let after : s ≡ drop 1 trailer_head ++ rest =
          ap (drop 1) (strip_sound trailer_head (c ∷ s) rest e) in
        rw after (
          closed-newline n rest (ap (λ o. o >>= λ r. closed (read_digits digit 0 0 r)) (sym e) ∙ h))
  ]

  -- The search passes over everything in front of a trailer.
  search-append :
      (i n : ℕ) (pre s : Text)
      → match_trailer digit (newline ∷ s) ≡ some n
      → search_trailer digit i (pre ++ newline ∷ s) ≡ some (i + length pre, n)
  unfolding search_trailer
  search-append i n [] s h = rw (h, search_trailer) (ap (λ j. some (j, n)) (omega arith))
  search-append i n (c ∷ pre) s h =
      elim (Option-cases (match_trailer digit (c ∷ pre ++ newline ∷ s))) [
        | inl e ↦
            rw (e, search_trailer)
              (search-append (suc i) n pre s h ∙ ap (λ j. some (j, n)) (omega arith))
        | inr (m, e) ↦ cc (
          match-newline c m (pre ++ newline ∷ s) e,
          any-append (λ d. newline == d) pre (newline ∷ s),
          or-true (contains_code newline pre),
        )
      ]

  -- What `split` finds in a text that ends with a block of the right length.
  pub split-block :
      (bare block : Text)
      → starts_with mark block ≡ true
      → split digit (bare ++ (block ++ trailer (length block)))
        ≡ (bare, block ++ trailer (length block))
  unfolding split trailer
  split-block bare block h =
      let n = length block in
      let found : search_trailer digit 0 (bare ++ (block ++ trailer n))
          ≡ some (length bare + n, n) =
        ap (search_trailer digit 0) (sym (append_assoc bare block (trailer n)))
        ∙ (search-append 0 n (bare ++ block) _ (match-trailer n)
            ∙ ap (λ j. some (j, n)) (omega (arith, length-append bare block))) in
      rw (found, split)
        (cut-append (length bare + n) n bare (block ++ trailer n) refl
          (starts_with-grow mark block (trailer n) h))

  -- What `render` makes of one note or more, `split` takes off again, whatever text it was put
  -- behind and however the notes are framed: the bare text and the whole block come back.
  pub split-render :
      (frame : Option Frame) (note : Note) (notes : List Note) (bare block : Text)
      → render frame (note ∷ notes) ≡ some block
      → split digit (bare ++ block) ≡ (bare, block)
  split-render frame note notes bare block h =
      let (body, e) = render-block frame note notes block h in
      rw e (split-block bare (mark ++ body) (starts_with-append mark body))

  -- The two halves of a split, put together, are the text that was split; and what was taken off
  -- is nothing, or a block that begins with the mark.
  pub split_halves :
      (text : Text)
      → ((split digit text).0 ++ (split digit text).1 ≡ text)
        × (((split digit text).1 ≡ []) ⊎ (starts_with mark (split digit text).1 ≡ true))
  unfolding split
  split_halves text = elim (Option-cases (search_trailer digit 0 text)) [
    | inl e ↦ rw (e, split) (append-nil text, inl refl)
    | inr ((at, n), e) ↦ rw (e, split) (cut_halves text at n)
  ]
