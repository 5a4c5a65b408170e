-- ===== src/Inbox/Counting.antt =====
-- How often an id stands in a list of notes, and in an inbox.
use nontainer.Prelude.{
  Text, ℕ, ◌+◌, ◌<◌, ◌≡◌, refl, ap, true, false, ◌&&◌, not, List, [], ◌∷◌, ◌++◌, keep, drop,
  text_eq, text_eq_iff, arith, if◌then◌else◌,
}
use nontainer.Inbox.Notes.{Note}
use nontainer.Inbox.Decimal.{print-injective}
use nontainer.Inbox.{Inbox, remove_first, has_id, note_id}

unfoldable pub count : Text → List Note → ℕ
count id [] = 0
count id (note ∷ notes) = (if text_eq note.id id then 1 else 0) + count id notes

pub count-append : (id : Text) (xs ys : List Note) → count id (xs ++ ys) ≡ count id xs + count id ys
unfolding count
count-append id [] ys = omega arith
count-append id (x ∷ xs) ys = omega (arith, count-append id xs ys)

pub has_id-count : (id : Text) (notes : List Note) → has_id id notes ≡ false → count id notes ≡ 0
unfolding count has_id
has_id-count id [] h = refl
has_id-count id (x ∷ xs) h = ground (arith, has_id-count id xs)

pub count-has_id : (id : Text) (notes : List Note) → has_id id notes ≡ true → 0 < count id notes
unfolding count has_id
count-has_id id [] h = cc
count-has_id id (x ∷ xs) h = ground (arith, count-has_id id xs)

-- Keeping the notes whose ids are not among those of `notes` drops those ids, and no other.
pub count-keep :
    (id : Text) (notes xs : List Note)
    → count id (keep (λ n. not (has_id n.id notes)) xs)
      ≡ (if has_id id notes then 0 else count id xs)
unfolding count
count-keep id notes [] = ground arith
count-keep id notes (x ∷ xs) = ground (arith, text_eq_iff x.id id, count-keep id notes xs)

-- Withdrawing an id takes one note of that id where there is one, and leaves every other id.
pub count-remove_first :
    (id j : Text) (notes : List Note)
    → count j (remove_first id notes).1
        + (if (remove_first id notes).0 && text_eq id j then 1 else 0)
      ≡ count j notes
unfolding count remove_first
count-remove_first id j [] = refl
count-remove_first id j (x ∷ xs) =
    ground
      (arith, text_eq_iff x.id id, text_eq_iff x.id j, text_eq_iff id j, count-remove_first id j xs)

-- How many notes of an id the inbox holds, pending or delivered.
abbrev pub held : Text → Inbox → ℕ
held id ib = count id ib.pending + count id ib.delivered

pub note_id-injective : (j k : ℕ) → note_id j ≡ note_id k → j ≡ k
unfolding note_id
note_id-injective j k h = print-injective j k (ap (drop 1) h)
