-- ===== src/Compaction/Cut.antt =====
-- What `chunks` of nontainer/compaction.py puts in the place of an item.
use nontainer.Prelude.{
  Text, ℕ, zero, suc, ◌-◌, ◌*◌, ◌≤◌, ◌<◌, List, inl, inr, [], ◌∷◌, ◌++◌, ◌≡◌, ◌⊎◌, refl, ap, map,
  length, take, drop, ltb, arith, length-take_le, Bool-cases,
}
use nontainer.Compaction.Items.{Item}
use nontainer.Compaction.Chunks.{cost, fit, cut_note}

-- What stands for an item in the chunks: the item itself, or, where it costs more than the limit, the
-- item with so much of the beginning of its text, and the note.
pub data Cut (limit : ℕ) (item : Item) : Item → Type 0 where
  whole : cost item ≤ limit → Cut limit item item
  shortened :
      (kept rest : Text)
      → limit < cost item
      → item.text ≡ kept ++ rest
      → length kept ≤ (limit - 4) * 4 - 40
      → (length kept ≡ (limit - 4) * 4 - 40) ⊎ (rest ≡ [])
      → Cut limit item (record item { text = kept ++ cut_note })

-- The items of the second list stand for those of the first, one by one.
pub AllCut : ℕ → List Item → List Item → Type 0
AllCut limit [] [] = Unit
AllCut limit [] (j ∷ js) = ⊥
AllCut limit (i ∷ is) [] = ⊥
AllCut limit (i ∷ is) (j ∷ js) = Cut limit i j × AllCut limit is js

take_or_whole : (n : ℕ) (t : Text) → (length (take n t) ≡ n) ⊎ (drop n t ≡ [])
take_or_whole zero t = inl refl
take_or_whole (suc n) [] = inr refl
take_or_whole (suc n) (c ∷ t) = elim (take_or_whole n t) [
  | inl e ↦ inl (omega (arith, e))
  | inr e ↦ inr e
]

take-append-drop : (n : ℕ) (t : Text) → t ≡ take n t ++ drop n t
take-append-drop zero t = refl
take-append-drop (suc n) [] = refl
take-append-drop (suc n) (c ∷ t) = ap (λ u. c ∷ u) (take-append-drop n t)

fit-Cut : (limit : ℕ) (item : Item) → Cut limit item (fit limit item)
unfolding fit
fit-Cut limit item = elim (Bool-cases (ltb limit (cost item))) [
  | inl over ↦
      let n = (limit - 4) * 4 - 40 in
      rw (over) (
        shortened (take n item.text) (drop n item.text) (ground arith)
          (take-append-drop n item.text) (length-take_le n item.text) (take_or_whole n item.text))
  | inr under ↦ rw (under) (whole (ground arith))
]

pub fit-AllCut : (limit : ℕ) (items : List Item) → AllCut limit items (map (fit limit) items)
unfolding AllCut
fit-AllCut limit [] = tt
fit-AllCut limit (item ∷ items) = (fit-Cut limit item, fit-AllCut limit items)
