-- ===== src/Conversation/Applied.antt =====
-- `_apply` of nontainer/conversation.py: all of a plan's changes are made, or none.
use nontainer.Prelude.{
  Text, true, false, List, Option, none, some, [], ◌∷◌, if◌then◌else◌, Dict, lookup, keys, member,
  lookup-insert, lookup-erase, is_some, text_eq, text_eq_iff, ◌≡◌, refl, ap, arith, Bool-cases, inl,
  inr,
}
use nontainer.Values.{Value}
use nontainer.Planes.{Kv, raised, set_item, delete_item}
use nontainer.Planes.Writes.{
  Clear, Once, set_item-Clear, set_item-Once, delete_item-Clear, delete_item-Once,
}
use nontainer.Conversation.{
  readable, found_in, held, Change, put, delete, restore_to, put_back, apply_from, apply,
}

readable_all : (o : Option Value) → readable true o ≡ o
readable_all none = refl
readable_all (some v) = refl

-- What is held of some keys is what is found at them.
pub lookup-found_in :
    (items : Dict Value) (ks : List Text) (k : Text)
    → lookup k (found_in true items ks) ≡ (if member k ks then lookup k items else none)
unfolding found_in lookup member
lookup-found_in items [] k = refl
lookup-found_in items (j ∷ ks) k =
    ground (arith, readable_all (lookup j items), text_eq_iff j k, lookup-found_in items ks k)

restore_to-Clear :
    (o : Option Value) (key k : Text) (kv : Kv)
    → Clear kv.faults
    → Clear (restore_to o key kv).faults
      × (lookup k (restore_to o key kv).items ≡ (if text_eq key k then o else lookup k kv.items))
unfolding restore_to
restore_to-Clear (some value) key k kv h =
    let (made, later) = set_item-Clear key value kv h in
    (later, rw made.items (lookup-insert key k value kv.items))
restore_to-Clear none key k kv h =
    let (made, later) = delete_item-Clear key kv h in
    (later, rw made.items (lookup-erase key k kv.items))

module _ (before : Dict Value) where
  -- Where no write fails, the put-back gives the keys it is about what was held of them.
  lookup-put_back :
      (done : List Text) (k : Text) (kv : Kv)
      → Clear kv.faults
      → lookup k (put_back before done kv).items
        ≡ (if member k done then lookup k before else lookup k kv.items)
  unfolding put_back member
  lookup-put_back [] k kv h = refl
  lookup-put_back (key ∷ done) k kv h =
      let (later, one) = restore_to-Clear (lookup key before) key k kv h in
      ground (
        arith,
        one,
        text_eq_iff key k,
        lookup-put_back done k (restore_to (lookup key before) key kv) later,
      )

  module _ (start : Dict Value) where
    -- What is held of the keys is what they held at the start, and the others hold that still.
    record IsBefore (done ahead : List Text) (kv : Kv) : Type 0 where
      of_done : (k : Text) → member k done ≡ true → lookup k before ≡ lookup k start
      of_ahead : (k : Text) → member k ahead ≡ true → lookup k before ≡ lookup k start
      of_others : (k : Text) → member k done ≡ false → lookup k kv.items ≡ lookup k start

    put_back-start :
        (done ahead : List Text) (kv kv' : Kv) (k : Text)
        → IsBefore done ahead kv
        → kv'.items ≡ kv.items
        → Clear kv'.faults
        → lookup k (put_back before done kv').items ≡ lookup k start
    put_back-start done ahead kv kv' k b e h = ground (
      arith,
      lookup-put_back done k kv' h,
      b.of_done k,
      b.of_others k,
      ap (λ items. lookup k items) e,
    )

    IsBefore-next :
        (done ahead : List Text) (key : Text) (kv kv' : Kv)
        → IsBefore done (key ∷ ahead) kv
        → ((k : Text) → text_eq key k ≡ false → lookup k kv'.items ≡ lookup k kv.items)
        → IsBefore (key ∷ done) ahead kv'
    unfolding member
    IsBefore-next done ahead key kv kv' b h = record {
      of_done = λ k m. ground (arith, b.of_done k, b.of_ahead k);
      of_ahead = λ k m. ground (arith, b.of_ahead k);
      of_others = λ k m. ground (arith, b.of_others k, h k);
    }

    IsBefore-skip :
        (done ahead : List Text) (key : Text) (kv : Kv)
        → IsBefore done (key ∷ ahead) kv
        → IsBefore done ahead kv
    unfolding member
    IsBefore-skip done ahead key kv b = record {
      of_done = b.of_done;
      of_ahead = λ k m. ground (arith, b.of_ahead k);
      of_others = b.of_others;
    }

    raised-start :
        (plan : Dict Change) (done : List Text) (kv after : Kv) (k : Text)
        → IsBefore done (keys plan) kv
        → Once kv.faults
        → apply_from before done plan kv ≡ raised after
        → lookup k after.items ≡ lookup k start
    unfolding apply_from keys
    raised-start [] done kv after k b h e = cc
    raised-start ((key, put value) ∷ plan) done kv after k b h e =
        elim (set_item-Once key value kv h) [
          | inl (made, later) ↦
              raised-start plan (key ∷ done) (set_item key value kv).1 after k
                (IsBefore-next done (keys plan) key kv _ b
                  (λ j ne. rw made.items (ground (arith, lookup-insert key j value kv.items))))
                later (rw made.written at e)
          | inr (failed, same, later) ↦
              let back =
                put_back-start done (key ∷ keys plan) kv (set_item key value kv).1 k b same later in
              ground arith
        ]
    raised-start ((key, delete) ∷ plan) done kv after k b h e =
        elim (Bool-cases (is_some (lookup key before))) [
          | inl there ↦ elim (delete_item-Once key kv h) [
            | inl (made, later) ↦
                raised-start plan (key ∷ done) (delete_item key kv).1 after k
                  (IsBefore-next done (keys plan) key kv _ b
                    (λ j ne. rw made.items (ground (arith, lookup-erase key j kv.items))))
                  later (rw (there, made.written) at e)
            | inr (failed, same, later) ↦
                let back =
                  put_back-start done (key ∷ keys plan) kv (delete_item key kv).1 k b same later in
                ground arith
          ]
          | inr absent ↦
              raised-start plan done kv after k (IsBefore-skip done (keys plan) key kv b) h
                (rw absent at e)
        ]

-- All or nothing: when the changes of a plan raise, on a store of which at most one write fails,
-- every key is left holding what it held before, whichever write it was that failed.
pub apply_raised :
    (plan : Dict Change) (kv after : Kv)
    → Once kv.faults
    → apply plan kv ≡ raised after
    → (k : Text) → lookup k after.items ≡ lookup k kv.items
unfolding apply held member
apply_raised plan kv after h e k =
    raised-start (held kv (keys plan)) kv.items plan [] kv after k
      (record {
        of_done = λ j m. cc;
        of_ahead = λ j m. ground (arith, lookup-found_in kv.items (keys plan) j);
        of_others = λ j m. refl;
      })
      h e
