-- ===== src/Editing/Matching.antt =====
-- Finding and replacing in nontainer/editing.py: `str.count` and `str.replace`, and the pattern that
-- passes over trailing white space.
use nontainer.Prelude.{
  Text, ℕ, zero, suc, ◌+◌, Bool, List, Option, none, some, [], ◌∷◌, ◌++◌, if◌then◌else◌, ◌||◌, ◌==◌,
  starts_with, length, drop, map, strip_right,
}

abbrev pub push_code : ℕ → List Text → List Text
push_code c [] = (c ∷ []) ∷ []
push_code c (l ∷ ls) = if c == 10 then [] ∷ l ∷ ls else (c ∷ l) ∷ ls

-- `t.split("\n")`
unfoldable pub split_lines : Text → List Text
split_lines [] = [] ∷ []
split_lines (c ∷ t) = push_code c (split_lines t)

-- What a search finds at the beginning of a text: the length of its match.
abbrev pub Matcher : Type 0
Matcher = Text → Option ℕ

unfoldable pub literal : Text → Matcher
literal old t = if starts_with old t then some (length old) else none

-- The length of `[ \t]*` at the beginning of a text.
unfoldable pub spaces : Text → ℕ
spaces [] = 0
spaces (c ∷ t) = let rest = suc (spaces t) in if (c == 32) || (c == 9) then rest else 0

abbrev pub more : ℕ → Option ℕ → Option ℕ
more n none = none
more n (some k) = some (n + k)

-- What follows a line of the pattern: a line feed, and the other lines.
abbrev pub after_line : Matcher → Text → Option ℕ
after_line rest [] = none
after_line rest (c ∷ t) = let found = more 1 (rest t) in if c == 10 then found else none

-- The pattern of lines, each of which may be followed by spaces and tabs.
unfoldable pub lines_match : List Text → Matcher
lines_match [] t = some 0
lines_match (l ∷ []) t =
    if starts_with l t then some (length l + spaces (drop (length l) t)) else none
lines_match (l ∷ k ∷ ls) t =
    let n = length l + spaces (drop (length l) t) in
    let rest = more n (after_line (lines_match (k ∷ ls)) (drop n t)) in
    if starts_with l t then rest else none

-- `_trailing_ws_pattern`, for what `rstrip` strips.
unfoldable pub trailing_ws_pattern : (ℕ → Bool) → Text → Matcher
trailing_ws_pattern blank search = lines_match (map (strip_right blank) (split_lines search))

-- How many matches there are from the left, none of which overlaps another, past so many codes.
unfoldable pub count_matches : Matcher → ℕ → Text → ℕ
count_matches m (suc n) [] = 0
count_matches m (suc n) (c ∷ t) = count_matches m n t
count_matches m zero [] = elim (m []) [ none ↦ 0 | some n ↦ 1 ]
count_matches m zero (c ∷ t) = elim (m (c ∷ t)) [
  | none ↦ count_matches m 0 t
  | some zero ↦ suc (count_matches m 0 t)
  | some (suc n) ↦ suc (count_matches m n t)
]

-- Each of these matches replaced.
unfoldable pub replace_matches : Matcher → Text → ℕ → Text → Text
replace_matches m new (suc n) [] = []
replace_matches m new (suc n) (c ∷ t) = replace_matches m new n t
replace_matches m new zero [] = elim (m []) [ none ↦ [] | some n ↦ new ]
replace_matches m new zero (c ∷ t) = elim (m (c ∷ t)) [
  | none ↦ c ∷ replace_matches m new 0 t
  | some zero ↦ new ++ (c ∷ replace_matches m new 0 t)
  | some (suc n) ↦ new ++ replace_matches m new n t
]

-- The first match replaced.
unfoldable pub replace_first : Matcher → Text → Text → Text
replace_first m new [] = elim (m []) [ none ↦ [] | some n ↦ new ]
replace_first m new (c ∷ t) = elim (m (c ∷ t)) [
  | none ↦ c ∷ replace_first m new t
  | some n ↦ new ++ drop n (c ∷ t)
]
