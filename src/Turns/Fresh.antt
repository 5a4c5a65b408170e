-- ===== src/Turns/Fresh.antt =====
-- Notes whose ids are minted one after another, as nontainer/turns.py meets them at a delivery.
use nontainer.Prelude.{
  Text, ℕ, suc, ◌+◌, ◌<◌, Bool, false, List, [], ◌∷◌, ◌++◌, append_assoc, not, ◌||◌, keep, length,
  member, text_eq, text_eq_iff, text_eq_refl, ◌≡◌, refl, arith,
}
use nontainer.Inbox.Notes.{Note}
use nontainer.Inbox.{Words, mint, note_id, has_id}
use nontainer.Inbox.Counting.{note_id-injective}
use nontainer.Turns.Delivery.{ids}

-- The notes that are minted of some words, after `k` others.
unfoldable pub minted : List Words → ℕ → List Note
minted [] k = []
minted (w ∷ ws) k = mint w (suc k) ∷ minted ws (suc k)

-- No id that is minted after `m` others is there.
pub record FreshAbove (m : ℕ) (notes : List Note) : Type 0 where
  pub at : (k : ℕ) → m < k → has_id (note_id k) notes ≡ false

pub has_id-append :
    (id : Text) (xs ys : List Note) → has_id id (xs ++ ys) ≡ (has_id id xs || has_id id ys)
unfolding has_id
has_id-append id [] ys = refl
has_id-append id (x ∷ xs) ys = ground (arith, has_id-append id xs ys)

pub member-ids : (id : Text) (xs : List Note) → member id (ids xs) ≡ has_id id xs
unfolding member ids has_id
member-ids id [] = refl
member-ids id (x ∷ xs) = rw (member-ids id xs)

pub keep-append : (p : Note → Bool) (xs ys : List Note) → keep p (xs ++ ys) ≡ keep p xs ++ keep p ys
keep-append p [] ys = refl
keep-append p (x ∷ xs) ys = ground (arith, keep-append p xs ys)

-- Without the notes of some ids.
abbrev pub without : List Note → List Note → List Note
without gone = keep (λ n. not (has_id n.id gone))

pub without-append : (a b xs : List Note) → without (a ++ b) xs ≡ without a (without b xs)
without-append a b [] = refl
without-append a b (x ∷ xs) = ground (arith, has_id-append x.id a b, without-append a b xs)

without_later : (pre xs : List Note) → without (pre ++ xs) xs ≡ []
unfolding has_id
without_later pre [] = refl
without_later pre (x ∷ xs) = ground (
  arith,
  has_id-append x.id pre (x ∷ xs),
  text_eq_refl x.id,
  append_assoc pre (x ∷ []) xs,
  without_later (pre ++ x ∷ []) xs,
)

pub without_self : (xs : List Note) → without xs xs ≡ []
without_self xs = without_later [] xs

pub FreshAbove-append :
    {m : ℕ} {xs ys : List Note} → FreshAbove m xs → FreshAbove m ys → FreshAbove m (xs ++ ys)
FreshAbove-append {m} {xs} {ys} a b = record {
  at = λ k h. ground (arith, has_id-append (note_id k) xs ys, a.at k h, b.at k h);
}

pub FreshAbove-mono : {m : ℕ} {xs : List Note} (n : ℕ) → FreshAbove m xs → FreshAbove (m + n) xs
FreshAbove-mono n a = record { at = λ k h. a.at k (omega arith) }

mint_fresh : (w : Words) (j k : ℕ) → j < k → text_eq (mint w j).id (note_id k) ≡ false
unfolding mint
mint_fresh w j k h = ground (arith, text_eq_iff (note_id j) (note_id k), note_id-injective j k)

pub minted-FreshAbove : (ws : List Words) (m : ℕ) → FreshAbove (m + length ws) (minted ws m)
unfolding minted has_id
minted-FreshAbove [] m = record { at = λ k h. refl }
minted-FreshAbove (w ∷ ws) m = record {
  at = λ k h. ground (
    arith,
    mint_fresh w (suc m) k (omega arith),
    (minted-FreshAbove ws (suc m)).at k (omega arith),
  );
}

-- The notes minted later are none of those that are there.
minted_apart :
    (ws : List Words) (m : ℕ) (id : Text)
    → ((k : ℕ) → m < k → text_eq id (note_id k) ≡ false)
    → has_id id (minted ws m) ≡ false
unfolding minted has_id mint
minted_apart [] m id h = refl
minted_apart (w ∷ ws) m id h = ground (
  arith,
  h (suc m) (omega arith),
  text_eq_iff id (note_id (suc m)),
  text_eq_iff (note_id (suc m)) id,
  minted_apart ws (suc m) id (λ k l. h k (omega arith)),
)

pub without-minted :
    (ws : List Words) (m : ℕ) (xs : List Note) → FreshAbove m xs → without (minted ws m) xs ≡ xs
unfolding has_id
without-minted ws m [] f = refl
without-minted ws m (x ∷ xs) f = ground (
  arith,
  minted_apart ws m x.id (λ k h. ground (arith, f.at k h)),
  without-minted ws m xs (record { at = λ k h. ground (arith, f.at k h) }),
)

pub minted-without :
    (ws : List Words) (m : ℕ) (gone : List Note)
    → FreshAbove m gone
    → without gone (minted ws m) ≡ minted ws m
unfolding minted mint
minted-without [] m gone f = refl
minted-without (w ∷ ws) m gone f = ground (
  arith,
  f.at (suc m) (omega arith),
  minted-without ws (suc m) gone (record { at = λ k h. f.at k (omega arith) }),
)
