-- ===== src/Compaction/Chunks.antt =====
-- `chunks` of nontainer/compaction.py: a history packed into lists of a bounded size.
use nontainer.Prelude.{
  Text, concat, ℕ, ◌+◌, ◌-◌, ◌*◌, List, Option, none, some, [], ◌∷◌, ◌++◌, take, if◌then◌else◌, ltb,
  ◌==◌, ◌&&◌, not, is_empty,
}
use nontainer.Compaction.Items.{Item, estimate_tokens}

unfoldable pub cost : Item → ℕ
cost item = estimate_tokens item.text + 4

-- `"\n[… cut to fit]"`
abbrev pub cut_note : Text
cut_note = 10 ∷ concat "[… cut to fit]"

-- An item over the limit on its own, cut: its text's first `max(0, (limit - 4) * 4 - 40)`.
unfoldable pub fit : ℕ → Item → Item
fit limit item =
    if ltb limit (cost item)
    then record item { text = take ((limit - 4) * 4 - 40) item.text ++ cut_note }
    else item

-- The loop, with the chunk being filled and its size.
unfoldable pub pack : ℕ → List Item → List Item → ℕ → List (List Item)
pack limit [] current size = if is_empty current then [] else current ∷ []
pack limit (item ∷ items) current size =
    let item' = fit limit item in
    let fresh = pack limit items (item' ∷ []) (cost item') in
    let same = pack limit items (current ++ item' ∷ []) (size + cost item') in
    if not (is_empty current) && ltb limit (size + cost item') then current ∷ fresh else same

-- `none` where it raises.
unfoldable pub chunks : List Item → ℕ → Option (List (List Item))
chunks items limit = if limit == 0 then none else some (pack limit items [] 0)
