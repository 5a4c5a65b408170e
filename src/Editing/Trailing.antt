-- ===== src/Editing/Trailing.antt =====
-- What the pattern of nontainer/editing.py that passes over trailing white space finds.
use nontainer.Prelude.{
  Text, ℕ, ◌+◌, true, List, Option, none, some, [], ◌∷◌, ◌++◌, ◌≡◌, ◌∙◌, refl, sym, ap, ◌==◌,
  if◌then◌else◌, starts_with, starts_with-append, is_some, length, drop, drop-length-append,
  length-append, append_assoc, Bool-cases, inl, inr, arith,
}
use nontainer.Editing.Line.{Spaces, starts_with-Line, spaces-before}
use nontainer.Editing.Matching.{Matcher, spaces, lines_match, after_line, more}

-- A text of these lines, each of which may be followed by spaces and tabs, with line feeds between them.
pub data Trailing : List Text → Text → Type 0 where
  last_line : (l sp : Text) → Spaces sp → Trailing (l ∷ []) (l ++ sp)
  then_lines :
      (l sp k : Text) (ls : List Text) (m : Text)
      → Spaces sp
      → Trailing (k ∷ ls) m
      → Trailing (l ∷ k ∷ ls) (l ++ (sp ++ (10 ∷ m)))

-- A match: the text of it, and what is behind it.
pub record Matched (ls : List Text) (t : Text) (n : ℕ) : Type 0 where
  pub text : Text
  pub behind : Text
  pub whole : t ≡ text ++ behind
  pub size : n ≡ length text
  pub lines : Trailing ls text

abbrev number_of : Option ℕ → ℕ
number_of none = 0
number_of (some n) = n

added_back :
    (n : ℕ) (o : Option ℕ) (x : ℕ) → more n o ≡ some x → (y : ℕ) × (o ≡ some y) × (x ≡ n + y)
added_back n none x e = absurd (cc e)
added_back n (some y) x e = (y, refl, sym (ap number_of e))

-- A line feed, and a match of the other lines behind it.
fed_back :
    (m : Matcher) (t : Text) (x : ℕ)
    → after_line m t ≡ some x
    → (r : Text) × (y : ℕ) × (t ≡ 10 ∷ r) × (m r ≡ some y) × (x ≡ 1 + y)
fed_back m [] x e = absurd (cc e)
fed_back m (c ∷ t) x e = elim (Bool-cases (c == 10)) [
  | inr other ↦ absurd (cc (rw (other) at e))
  | inl feed ↦
      let (y, o, g) = added_back 1 (m t) x (rw (feed) at e) in
      (t, y, ap (λ d. d ∷ t) (ground (arith)), o, g)
]

regrouped : (l gap m x : Text) → (l ++ gap) ++ (10 ∷ (m ++ x)) ≡ (l ++ (gap ++ (10 ∷ m))) ++ x
regrouped l gap m x =
    append_assoc l gap (10 ∷ (m ++ x))
    ∙ (ap (λ u. l ++ u) (sym (append_assoc gap (10 ∷ m) x))
        ∙ sym (append_assoc l (gap ++ (10 ∷ m)) x))

length-lines :
    (l gap m : Text) → length (l ++ (gap ++ (10 ∷ m))) ≡ length (l ++ gap) + (1 + length m)
length-lines l gap m =
    omega
      (arith, length-append l (gap ++ (10 ∷ m)), length-append gap (10 ∷ m), length-append l gap)

-- A match of the pattern is a text of its lines.
pub lines_match-Matched :
    (l : Text) (ls : List Text) (t : Text) (n : ℕ)
    → lines_match (l ∷ ls) t ≡ some n
    → Matched (l ∷ ls) t n
unfolding lines_match
lines_match-Matched l [] t n e = elim (Bool-cases (starts_with l t)) [
  | inr other ↦ absurd (cc (rw (other, lines_match) at e))
  | inl begins ↦
      let b = starts_with-Line l t begins in
      let is_n : some (length l + spaces (drop (length l) t)) ≡ some n =
        rw (begins, lines_match) at e in
      record {
        text = l ++ b.gap;
        behind = b.rest;
        whole = b.whole;
        size = sym (ap number_of is_n) ∙ b.size;
        lines = last_line l b.gap b.are_spaces;
      }
]
lines_match-Matched l (k ∷ ls) t n e = elim (Bool-cases (starts_with l t)) [
  | inr other ↦ absurd (cc (rw (other, lines_match) at e))
  | inl begins ↦
      let b = starts_with-Line l t begins in
      let at = length l + spaces (drop (length l) t) in
      let (x, o, g) =
        added_back at (after_line (lines_match (k ∷ ls)) (drop at t)) n
          (rw (begins, lines_match) at e) in
      let (r, y, feed, found, f) = fed_back (lines_match (k ∷ ls)) (drop at t) x o in
      let m = lines_match-Matched k ls r y found in
      let rest : b.rest ≡ 10 ∷ (m.text ++ m.behind) =
        sym b.behind ∙ (feed ∙ ap (λ u. 10 ∷ u) m.whole) in
      record {
        text = l ++ (b.gap ++ (10 ∷ m.text));
        behind = m.behind;
        whole = b.whole ∙ (ap (λ u. (l ++ b.gap) ++ u) rest ∙ regrouped l b.gap m.text m.behind);
        size = omega (arith, g, f, b.size, m.size, length-lines l b.gap m.text);
        lines = then_lines l b.gap k ls m.text b.are_spaces m.lines;
      }
]

is_some-more : (n : ℕ) (o : Option ℕ) → is_some (more n o) ≡ is_some o
is_some-more n none = refl
is_some-more n (some y) = refl

line_step :
    (l sp x : Text) (m : Matcher)
    → Spaces sp
    → is_some (
        if starts_with l (l ++ (sp ++ (10 ∷ x)))
        then more (length l + spaces (drop (length l) (l ++ (sp ++ (10 ∷ x))))) (
            after_line m (
              drop
                (length l + spaces (drop (length l) (l ++ (sp ++ (10 ∷ x)))))
                (l ++ (sp ++ (10 ∷ x)))))
        else none)
      ≡ is_some (m x)
line_step l sp x m h =
    let t = l ++ (sp ++ (10 ∷ x)) in
    let gap : length l + spaces (drop (length l) t) ≡ length (l ++ sp) = omega (
      arith,
      ap spaces (drop-length-append l (sp ++ (10 ∷ x))),
      spaces-before sp x h,
      length-append l sp,
    ) in
    let behind : drop (length l + spaces (drop (length l) t)) t ≡ 10 ∷ x =
      ap (λ n. drop n t) gap
      ∙ (ap (drop (length (l ++ sp))) (sym (append_assoc l sp (10 ∷ x)))
          ∙ drop-length-append (l ++ sp) (10 ∷ x)) in
    rw (starts_with-append l (sp ++ (10 ∷ x))) (
      is_some-more (length l + spaces (drop (length l) t))
        (after_line m (drop (length l + spaces (drop (length l) t)) t))
      ∙ (ap (λ u. is_some (after_line m u)) behind ∙ is_some-more 1 (m x)))

-- Where a text of the lines stands, the pattern matches.
pub Trailing-lines_match :
    (ls : List Text) (m b : Text) → Trailing ls m → is_some (lines_match ls (m ++ b)) ≡ true
unfolding lines_match
Trailing-lines_match ls m b (last_line l sp h) =
    rw (append_assoc l sp b, lines_match) (rw (starts_with-append l (sp ++ b)) refl)
Trailing-lines_match ls m b (then_lines l sp k ls' m' h rest) =
    ap (λ u. is_some (lines_match (l ∷ k ∷ ls') u))
      (sym (regrouped l sp m' b) ∙ append_assoc l sp (10 ∷ (m' ++ b)))
    ∙ (line_step l sp (m' ++ b) (lines_match (k ∷ ls')) h
        ∙ Trailing-lines_match (k ∷ ls') m' b rest)
