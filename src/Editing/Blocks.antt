-- ===== src/Editing/Blocks.antt =====
-- The blocks that nontainer/editing.py finds at another indent stand in the file's content.
use nontainer.Prelude.{
  Text, ℕ, suc, ◌+◌, ◌-◌, Bool, true, List, Option, none, some, [], ◌∷◌, ◌≡◌, refl, sym, ap, ◌&&◌,
  ◌==◌, leb, text_eq, is_some, length, take, drop, All, Bool-cases, inl, inr, arith,
}
use nontainer.Editing.Matching.{split_lines, push_code}
use nontainer.Editing.Indent.{
  Match, join_lines, offset, shifts, strip, lines_alike, block_at, anchored, add_match, blocks_from,
  blocks, anchor_from, indent_flexible_matches,
}
use nontainer.Editing.Lines.{Placed, lines-Placed}

-- A block that is found stands in the content, and equals the search line by line but for the white
-- space around.
pub record Block (blank : ℕ → Bool) (old content : Text) (x : Match) : Type 0 where
  pub placed : Placed content x.0 x.1.1
  pub fin : x.1.0 ≡ x.0 + length x.1.1
  pub lines : List Text
  pub alike : lines_alike blank (split_lines old) lines ≡ true
  pub block : x.1.1 ≡ join_lines (take (length (split_lines old)) lines)

-- A list that is not empty.
unfoldable pub Filled : List Text → Type 0
Filled ls = (k : Text) × ((ks : List Text) × (ls ≡ k ∷ ks))

push_code-Filled : (c : ℕ) (ls : List Text) → Filled (push_code c ls)
unfolding Filled
push_code-Filled c [] = (c ∷ [], ([], refl))
push_code-Filled c (l ∷ ls) = elim (Bool-cases (c == 10)) [
  | inl e ↦ ([], (l ∷ ls, rw (e) refl))
  | inr e ↦ (c ∷ l, (ls, rw (e) refl))
]

pub split_lines-Filled : (t : Text) → Filled (split_lines t)
unfolding split_lines Filled
split_lines-Filled [] = ([], ([], refl))
split_lines-Filled (c ∷ t) = push_code-Filled c (split_lines t)

module _ (blank : ℕ → Bool) (old content : Text) where
  alike-Filled : (qs ms : List Text) → Filled qs → lines_alike blank qs ms ≡ true → Filled ms
  unfolding Filled
  alike-Filled [] ms (k, (ks, e)) h = absurd (cc)
  alike-Filled (q ∷ qs) [] f h = absurd (cc)
  alike-Filled (q ∷ qs) (m ∷ ms) f h = (m, (ms, refl))

  match_in : Option Match → Match
  match_in none = (0, (0, []))
  match_in (some x) = x

  block_at-Block :
      (start : ℕ) (x : Match)
      → block_at blank old (split_lines content) start ≡ some x
      → Block blank old content x
  unfolding Filled match_in
  block_at-Block start x e =
      let ls = split_lines content in
      let n = length (split_lines old) in
      let found = join_lines (take n (drop start ls)) in
      let test =
        leb (start + n) (length ls)
        && (lines_alike blank (split_lines old) (drop start ls)
            && is_some (shifts blank old found)) in
      elim (Bool-cases test) [
        | inr other ↦ absurd (cc (rw (other) at e))
        | inl good ↦
            let alike : lines_alike blank (split_lines old) (drop start ls) ≡ true =
              ground (arith) in
            let (k, (ks, f)) =
              alike-Filled (split_lines old) (drop start ls) (split_lines-Filled old) alike in
            let is_x : (offset (take start ls), (offset (take start ls) + length found, found))
                ≡ x =
              ap match_in (rw (good) at e) in
            rw (sym is_x) (record {
              placed = lines-Placed content start n k ks f;
              fin = refl;
              lines = drop start ls;
              alike = alike;
              block = refl;
            })
      ]

  anchored-Block :
      (anchor : Text) (at : ℕ) (line : Text) (i : ℕ) (x : Match)
      → anchored blank old anchor at (split_lines content) line i ≡ some x
      → Block blank old content x
  anchored-Block anchor at line i x e =
      elim (Bool-cases (text_eq (strip blank line) anchor && leb at i)) [
        | inl here ↦ block_at-Block (i - at) x (rw (here) at e)
        | inr other ↦ absurd (cc (rw (other) at e))
      ]

  add-All :
      (o : Option Match) (ms : List Match)
      → ((x : Match) → o ≡ some x → Block blank old content x)
      → All (Block blank old content) ms
      → All (Block blank old content) (add_match blank o ms)
  add-All none ms h g = g
  add-All (some x) ms h g = (h x refl, g)

  blocks_from-All :
      (anchor : Text) (at : ℕ) (ls : List Text) (i : ℕ)
      → All (Block blank old content) (blocks_from blank old anchor at (split_lines content) ls i)
  blocks_from-All anchor at [] i = tt
  blocks_from-All anchor at (l ∷ ls) i =
      add-All (anchored blank old anchor at (split_lines content) l i)
        (blocks_from blank old anchor at (split_lines content) ls (suc i))
        (anchored-Block anchor at l i) (blocks_from-All anchor at ls (suc i))

  blocks-All :
      (anchor : Option (Text × ℕ))
      → All (Block blank old content) (blocks blank old (split_lines content) anchor)
  blocks-All none = tt
  blocks-All (some (anchor, at)) = blocks_from-All anchor at (split_lines content) 0

  -- Every block that is found stands where it is said to.
  pub indent_flexible_matches-All :
      All (Block blank old content) (indent_flexible_matches blank old content)
  unfolding indent_flexible_matches
  indent_flexible_matches-All = blocks-All (anchor_from blank 0 (split_lines old))
