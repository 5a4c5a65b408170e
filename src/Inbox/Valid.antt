-- ===== src/Inbox/Valid.antt =====
-- The invariant of an inbox, and what its methods do with the notes that it holds.
use nontainer.Prelude.{
  Text, ℕ, suc, ◌+◌, ◌≤◌, ◌<◌, ◌≡◌, refl, sym, ap, ◌&&◌, List, [], ◌∷◌, Option, text_eq,
  text_eq_iff, arith, if◌then◌else◌, Bool-cases, inl, inr,
}
use nontainer.Inbox.Notes.{Note}
use nontainer.Inbox.{
  Inbox, Words, Outcome, create, mint, note_id, put, deliver_now, withdraw, drain, settle, restore,
  requeue,
}
use nontainer.Inbox.Render.{Frame}
use nontainer.Inbox.Counting.{
  count, count-append, count-keep, count-remove_first, has_id-count, count-has_id, held,
  note_id-injective,
}

-- No id is held twice, and the ids still to be minted are not held.
pub record IsValid (ib : Inbox) : Type 0 where
  pub unique : (id : Text) → held id ib ≤ 1
  pub fresh : (k : ℕ) → ib.minted < k → held (note_id k) ib ≡ 0

create-IsValid :
    (frame : Option Frame) (on_delivered : Option (List Note → Outcome))
    → IsValid (create frame on_delivered)
unfolding count
create-IsValid frame on_delivered = record { unique = λ id. omega arith; fresh = λ k h. refl }

-- `put` adds one note of the id that it mints, and leaves every other id.
pub held-put :
    (w : Words) (ib : Inbox) (id : Text)
    → held id (put w ib).1 ≡ held id ib + (if text_eq (note_id (suc ib.minted)) id then 1 else 0)
unfolding put mint count
held-put w ib id = ground (arith, count-append id ib.pending (mint w (suc ib.minted) ∷ []))

pub held-deliver_now :
    (w : Words) (ib : Inbox) (id : Text)
    → held id (deliver_now w ib).1
      ≡ held id ib + (if text_eq (note_id (suc ib.minted)) id then 1 else 0)
unfolding deliver_now mint count
held-deliver_now w ib id =
    ground (arith, count-append id ib.delivered (mint w (suc ib.minted) ∷ []))

pub held-withdraw :
    (j id : Text) (ib : Inbox)
    → held id (withdraw j ib).1 + (if (withdraw j ib).0 && text_eq j id then 1 else 0) ≡ held id ib
unfolding withdraw
held-withdraw j id ib = omega (arith, count-remove_first j id ib.pending)

pub held-drain : (id : Text) (ib : Inbox) → held id (drain ib).1 ≡ held id ib
unfolding drain count
held-drain id ib = ground (arith, count-append id ib.delivered ib.pending)

pub held-requeue : (id : Text) (ib : Inbox) → held id (requeue ib).1 ≡ held id ib
unfolding requeue count
held-requeue id ib = ground (arith, count-append id ib.delivered ib.pending)

-- Putting back notes that are delivered, and no more often than they are, neither loses nor doubles one.
pub held-restore :
    (id : Text) (notes : List Note) (ib : Inbox)
    → IsValid ib
    → count id notes ≤ count id ib.delivered
    → held id (restore notes ib) ≡ held id ib
unfolding restore
held-restore id notes ib v h = ground (
  arith,
  count-append id notes ib.pending,
  count-keep id notes ib.delivered,
  has_id-count id notes,
  count-has_id id notes,
  v.unique id,
)

-- One call of a method, whichever thread makes it. What is restored is what was delivered.
pub data Step (a : Inbox) : Inbox → Type 0 where
  put_one : (w : Words) → Step a (put w a).1
  deliver_one : (w : Words) → Step a (deliver_now w a).1
  withdraw_one : (id : Text) → Step a (withdraw id a).1
  drain_all : Step a (drain a).1
  settle_all : Step a (settle a)
  requeue_all : Step a (requeue a).1
  restore_some :
      (notes : List Note)
      → ((id : Text) → count id notes ≤ count id a.delivered)
      → Step a (restore notes a)

pub data Reach (a : Inbox) : Inbox → Type 0 where
  start : Reach a a
  next : {b c : Inbox} → Reach a b → Step b c → Reach a c

-- Where no id is held more often than before, and nothing was minted, validity stays.
no_more-IsValid :
    (a b : Inbox)
    → a.minted ≡ b.minted
    → ((id : Text) → held id b ≤ held id a)
    → IsValid a
    → IsValid b
no_more-IsValid a b e h v = record {
  unique = λ id. omega (arith, h id, v.unique id);
  fresh = λ k l. omega (arith, h (note_id k), v.fresh k (omega arith));
}

minted-IsValid :
    (a b : Inbox)
    → b.minted ≡ suc a.minted
    → ((id : Text) → held id b ≡ held id a + (if text_eq (note_id (suc a.minted)) id then 1 else 0))
    → IsValid a
    → IsValid b
minted-IsValid a b e h v = record {
  unique = λ id. elim (Bool-cases (text_eq (note_id (suc a.minted)) id)) [
    | inl t ↦
        let same = (text_eq_iff (note_id (suc a.minted)) id).0 t in
        ground (arith, h id, v.fresh (suc a.minted) (omega arith), ap (λ i. held i a) same)
    | inr f ↦ ground (arith, h id, v.unique id)
  ];
  fresh = λ k l. elim (Bool-cases (text_eq (note_id (suc a.minted)) (note_id k))) [
    | inl t ↦
        let same = note_id-injective (suc a.minted) k ((text_eq_iff _ _).0 t) in
        absurd (omega arith)
    | inr f ↦ ground (arith, h (note_id k), v.fresh k (omega arith))
  ];
}

minted-drain : (ib : Inbox) → (drain ib).1.minted ≡ ib.minted
unfolding drain
minted-drain ib = ground arith

minted-requeue : (ib : Inbox) → (requeue ib).1.minted ≡ ib.minted
unfolding requeue
minted-requeue ib = ground arith

Step-IsValid : {a b : Inbox} → Step a b → IsValid a → IsValid b
unfolding put deliver_now withdraw settle restore
Step-IsValid {a} (put_one w) v = minted-IsValid a (put w a).1 refl (held-put w a) v
Step-IsValid {a} (deliver_one w) v =
    minted-IsValid a (deliver_now w a).1 refl (held-deliver_now w a) v
Step-IsValid {a} (withdraw_one id) v =
    no_more-IsValid a (withdraw id a).1 refl (λ i. omega (arith, held-withdraw id i a)) v
Step-IsValid {a} drain_all v =
    no_more-IsValid a (drain a).1 (sym (minted-drain a)) (λ i. omega (arith, held-drain i a)) v
Step-IsValid {a} settle_all v =
    no_more-IsValid a (settle a) refl (λ i. unfold count in omega arith) v
Step-IsValid {a} requeue_all v =
    no_more-IsValid a (requeue a).1 (sym (minted-requeue a)) (λ i. omega (arith, held-requeue i a))
      v
Step-IsValid {a} (restore_some notes h) v =
    no_more-IsValid a (restore notes a) refl (λ i. omega (arith, held-restore i notes a v (h i))) v

-- Whatever calls are made on a new inbox, in whatever order, where each `restore` is of notes that are
-- delivered at that time, none of them more often than it is, no id is ever held twice, pending and
-- delivered taken together, and no id that is still to be minted is held.
pub Reach-IsValid :
    (frame : Option Frame) (on_delivered : Option (List Note → Outcome)) {ib : Inbox}
    → Reach (create frame on_delivered) ib
    → IsValid ib
Reach-IsValid frame on_delivered start = create-IsValid frame on_delivered
Reach-IsValid frame on_delivered (next r s) = Step-IsValid s (Reach-IsValid frame on_delivered r)
