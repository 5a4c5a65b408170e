-- ===== src/Editing/Indent.antt =====
-- Blocks at another indent in nontainer/editing.py: finding them, and moving the text that replaces
-- them to their indent.
use nontainer.Prelude.{
  Text, ℕ, zero, suc, ◌+◌, ◌-◌, ◌*◌, ◌/◌, ◌%◌, Bool, true, false, List, Option, none, some, [], ◌∷◌,
  ◌++◌, if◌then◌else◌, ◌&&◌, not, ◌==◌, leb, text_eq, is_empty, is_some, length, take, drop, any,
  strip_left, strip_right, contains_code,
}
use nontainer.Editing.Matching.{split_lines}

-- `"\n".join(ls)`
unfoldable pub join_lines : List Text → Text
join_lines [] = []
join_lines (l ∷ []) = l
join_lines (l ∷ k ∷ ls) = l ++ (10 ∷ join_lines (k ∷ ls))

-- Where a line begins that so many lines come before.
abbrev pub offset : List Text → ℕ
offset [] = 0
offset (l ∷ ls) = length l + (1 + offset ls)

-- A block that was found: where it begins and ends, and its text.
abbrev pub Match : Type 0
Match = ℕ × (ℕ × Text)

-- A shift of an indent: from the second number to the first.
abbrev pub Shift : Type 0
Shift = ℕ × ℕ

abbrev same_shift : Shift → Shift → Bool
same_shift (m, q) (n, r) = m + r == n + q

-- Texts to strip of what `blank` holds.
module _ (blank : ℕ → Bool) where
  abbrev pub strip : Text → Text
  strip t = strip_right blank (strip_left blank t)

  abbrev leading : Text → Text
  leading line = take (length line - length (strip_left blank line)) line

  abbrev count_code : ℕ → Text → ℕ
  count_code c [] = 0
  count_code c (d ∷ t) = let rest = count_code c t in if c == d then suc rest else rest

  abbrev width_of : Text → ℕ
  width_of t = count_code 9 t * 4 + count_code 32 t

  -- `_width`
  unfoldable pub width : Text → ℕ
  width line = width_of (leading line)

  abbrev deltas : List Text → List Text → List Shift
  deltas [] ms = []
  deltas (q ∷ qs) [] = []
  deltas (q ∷ qs) (m ∷ ms) =
      let rest = deltas qs ms in if is_empty (strip q) then rest else (width m, width q) ∷ rest

  abbrev shifts_of : List Shift → Option (Shift × Shift)
  shifts_of [] = none
  shifts_of (d ∷ []) = some (d, d)
  shifts_of (d ∷ e ∷ es) = if any (λ x. not (same_shift x e)) es then none else some (d, e)

  -- `_shifts`
  unfoldable pub shifts : Text → Text → Option (Shift × Shift)
  shifts search matched = shifts_of (deltas (split_lines search) (split_lines matched))

  -- The first line that is not blank, with its place.
  abbrev pub anchor_from : ℕ → List Text → Option (Text × ℕ)
  anchor_from n [] = none
  anchor_from n (l ∷ ls) =
      let rest = anchor_from (suc n) ls in if is_empty (strip l) then rest else some (strip l, n)

  abbrev pub lines_alike : List Text → List Text → Bool
  lines_alike [] ms = true
  lines_alike (q ∷ qs) [] = false
  lines_alike (q ∷ qs) (m ∷ ms) = text_eq (strip q) (strip m) && lines_alike qs ms

  -- The block from a line on, where it equals the search but for its indent.
  abbrev pub block_at : Text → List Text → ℕ → Option Match
  block_at search lines start =
      let n = length (split_lines search) in
      let found = join_lines (take n (drop start lines)) in
      let from = offset (take start lines) in
      if leb (start + n) (length lines)
        && (lines_alike (split_lines search) (drop start lines) && is_some (shifts search found))
      then some (from, (from + length found, found))
      else none

  -- The block whose anchor is a line.
  abbrev pub anchored : Text → Text → ℕ → List Text → Text → ℕ → Option Match
  anchored search anchor at lines line i =
      if text_eq (strip line) anchor && leb at i then block_at search lines (i - at) else none

  abbrev pub add_match : Option Match → List Match → List Match
  add_match none ms = ms
  add_match (some m) ms = m ∷ ms

  abbrev pub blocks_from : Text → Text → ℕ → List Text → List Text → ℕ → List Match
  blocks_from search anchor at lines [] i = []
  blocks_from search anchor at lines (l ∷ ls) i =
      add_match (anchored search anchor at lines l i)
        (blocks_from search anchor at lines ls (suc i))

  abbrev pub blocks : Text → List Text → Option (Text × ℕ) → List Match
  blocks search lines none = []
  blocks search lines (some (anchor, at)) = blocks_from search anchor at lines lines 0

  -- `_indent_flexible_matches`
  unfoldable pub indent_flexible_matches : Text → Text → List Match
  indent_flexible_matches search content =
      blocks search (split_lines content) (anchor_from 0 (split_lines search))

  abbrev first_line : List Text → Text
  first_line [] = []
  first_line (l ∷ ls) = let rest = first_line ls in if is_empty (strip l) then rest else l

  abbrev place_of : (Text → Bool) → ℕ → List Text → Option ℕ
  place_of test n [] = none
  place_of test n (l ∷ ls) =
      let rest = place_of test (suc n) ls in
      if not (is_empty (strip l)) && test l then some n else rest

  -- `_counterpart`
  unfoldable pub counterpart : Text → List Text → Option ℕ
  counterpart search repl =
      let head = first_line (split_lines search) in
      elim (place_of (λ l. text_eq (strip l) (strip head)) 0 repl) [
        | some i ↦ some i
        | none ↦ if width (first_line repl) == width head then place_of (λ l. true) 0 repl else none
      ]

  -- `base_indent`
  abbrev base_indent : List Text → ℕ × ℕ
  base_indent [] = (0, 32)
  base_indent (l ∷ ls) =
      let rest = base_indent ls in
      if is_empty (strip_left blank l)
      then rest
      else (width l, if contains_code 9 (leading l) then 9 else 32)

  abbrev pub repeat : ℕ → ℕ → Text
  repeat zero c = []
  repeat (suc n) c = c ∷ repeat n c

  abbrev pub indent_of : ℕ → ℕ → Text
  indent_of char n = if char == 9 then repeat (n / 4) 9 ++ repeat (n % 4) 32 else repeat n 32

  abbrev pub adjust : ℕ → (ℕ → Shift) → ℕ → List Text → List Text
  adjust char shift i [] = []
  adjust char shift i (l ∷ ls) =
      let (to, from) = shift i in
      let rest = adjust char shift (suc i) ls in
      if is_empty (strip_left blank l)
      then [] ∷ rest
      else (indent_of char ((width l + to) - from) ++ strip_left blank l) ∷ rest

  abbrev same_place : ℕ → Option ℕ → Bool
  same_place i none = false
  same_place i (some j) = i == j

  abbrev shift_of : Text → List Text → Option (Shift × Shift) → Shift → ℕ → Shift
  shift_of search repl none delta i = delta
  shift_of search repl (some (first, rest)) delta i =
      if same_shift first rest
      then delta
      else if same_place i (counterpart search repl)
      then first
      else rest

  -- `_reindent`
  unfoldable pub reindent : Text → Text → Text → Text
  reindent replacement search matched =
      let repl = split_lines replacement in
      let (search_indent, _) = base_indent (split_lines search) in
      let (target_indent, char) = base_indent (split_lines matched) in
      let (repl_indent, _) = base_indent repl in
      let delta : Shift =
        (target_indent, if repl_indent == search_indent then search_indent else repl_indent) in
      join_lines (adjust char (shift_of search repl (shifts search matched) delta) 0 repl)
