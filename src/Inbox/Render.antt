-- ===== src/Inbox/Render.antt =====
-- `render` and `split` of nontainer/inbox.py: the block of notes on a tool result's end, and the
-- reader that takes it off again. The reader takes a numeral of any length; Python refuses to read one of
-- more than 4300 digits, which no block that `render` makes has.
pub mod RoundTrip
use Prim.Native.Nat.{◌-◌}
use nontainer.Prelude.{
  Text, concat, starts_with, ℕ, zero, suc, ltb, ◌==◌, text_eq, not, ◌||◌, Option, none, some, List,
  [], ◌∷◌, ◌++◌, length, take, drop, if◌then◌else◌,
}
use nontainer.Inbox.Notes.{Note, default_frame}
use nontainer.Inbox.Decimal.{print, read_digits}

-- `MARK`, and the fixed parts of `_TRAILER`.
abbrev pub mark : Text
mark = concat "\n\n---- inbox ----\n"

abbrev pub trailer_head : Text
trailer_head = concat "\n---- /inbox:"

abbrev pub trailer_tail : Text
trailer_tail = concat " ----"

-- `_TRAILER.format(length=n)`
unfoldable pub trailer : ℕ → Text
trailer n = trailer_head ++ (print n ++ trailer_tail)

-- A framing that the embedder supplies, which may raise.
abbrev pub Frame : Type 0
Frame = Note → Option Text

infixl 5 ◌>>=◌
abbrev ◌>>=◌ {ℓ κ} : {A : Type ℓ} {B : Type κ} → Option A → (A → Option B) → Option B
none >>= f = none
some a >>= f = f a

-- `f"{framer(note)}\n{note.text}"`
abbrev framed : Frame → Note → Option Text
framed frame note = do line ← frame note; some (line ++ (10 ∷ note.text))

-- `"\n\n".join(...)` over one note or more
unfoldable pub join_framed : Frame → Note → List Note → Option Text
join_framed frame note [] = framed frame note
join_framed frame note (next ∷ notes) = do
  first ← framed frame note
  rest ← join_framed frame next notes
  some (first ++ (10 ∷ 10 ∷ rest))

-- `frame or default_frame`
abbrev pub framer : Option Frame → Frame
framer none = λ note. some (default_frame note)
framer (some frame) = frame

-- `none` when the framing raises.
unfoldable pub render : Option Frame → List Note → Option Text
unfolding join_framed
render frame [] = some []
render frame (note ∷ notes) = do
  body ← join_framed (framer frame) note notes
  let block = mark ++ body
  some (block ++ trailer (length block))

-- `s` less the prefix `p`, where `s` begins with `p`.
unfoldable pub strip : Text → Text → Option Text
strip [] s = some s
strip (c ∷ p) [] = none
strip (c ∷ p) (d ∷ s) = let rest = strip p s in if c == d then rest else none

-- What `\d+ ----\Z` needs of what `\d*` read: one digit or more, and the tail up to the end.
abbrev closed : ℕ × ℕ × Text → Option ℕ
closed (n, zero, rest) = none
closed (n, suc count, rest) = if text_eq rest trailer_tail then some n else none

-- The two ways out once a trailer was found at `at` with the length `n`.
unfoldable pub cut : Text → ℕ → ℕ → Text × Text
cut text at n =
    let start = at - n in
    if ltb at n || not (starts_with mark (drop start text))
    then (text, [])
    else (take start text, drop start text)

module _ (digit : ℕ → Option ℕ) where
  -- `_TRAILER_RE` at the beginning of `s`, up to its end: the length that it holds. The blank
  -- after the digits is no digit, so the longest run of digits is the only one that can match.
  unfoldable pub match_trailer : Text → Option ℕ
  unfolding strip read_digits text_eq
  match_trailer s = do rest ← strip trailer_head s; closed (read_digits digit 0 0 rest)

  -- `_TRAILER_RE.search(text)`: where the first match begins, counting from `i`, and its length.
  unfoldable pub search_trailer : ℕ → Text → Option (ℕ × ℕ)
  search_trailer i [] = none
  search_trailer i (c ∷ s) = elim (match_trailer (c ∷ s)) [
    | some n ↦ some (i, n)
    | none ↦ search_trailer (suc i) s
  ]

  unfoldable pub split : Text → Text × Text
  split text = elim (search_trailer 0 text) [ none ↦ (text, []) | some (at, n) ↦ cut text at n ]
