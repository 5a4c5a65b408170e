-- ===== src/Conversation/Changed.antt =====
-- What `_apply` of nontainer/conversation.py leaves in a store on which no write fails.
use nontainer.Prelude.{
  Text, true, false, List, Option, none, some, [], ◌∷◌, Dict, IsDict, lookup, keys, member,
  member-keys, lookup-insert, lookup-erase, is_some, text_eq, text_eq_iff, text_eq_refl, ◌≡◌, refl,
  ap, ◌∙◌, arith, Bool-cases, inl, inr,
}
use nontainer.Values.{Value}
use nontainer.Planes.{Kv, Ran, returned, set_item, delete_item}
use nontainer.Planes.Writes.{Clear, set_item-Clear, delete_item-Clear}
use nontainer.Conversation.{held, Change, put, delete, apply_from, apply}
use nontainer.Conversation.Applied.{lookup-found_in}

-- What a key holds after its change.
abbrev pub changed : Option Change → Option Value → Option Value
changed none old = old
changed (some (put v)) old = some v
changed (some delete) old = none

-- The call returned, and each key holds what its change says.
pub record Applied (r : Ran (Unit {0})) (plan : Dict Change) (kv after : Kv) : Type 0 where
  pub returns : r ≡ returned tt after
  pub batched : after.batched ≡ kv.batched
  pub at_key : (k : Text) → lookup k after.items ≡ changed (lookup k plan) (lookup k kv.items)

-- What the loop knows of the keys to come.
abbrev Fresh : Dict Value → Dict Change → Kv → Type 0
Fresh before plan kv =
    (k : Text) → member k (keys plan) ≡ true → lookup k before ≡ lookup k kv.items

module _ (before : Dict Value) where
  Fresh-next :
      (key : Text) (change : Change) (plan : Dict Change) (kv kv' : Kv)
      → lookup key plan ≡ none
      → ((k : Text) → text_eq key k ≡ false → lookup k kv'.items ≡ lookup k kv.items)
      → Fresh before ((key, change) ∷ plan) kv
      → Fresh before plan kv'
  unfolding member keys
  Fresh-next key change plan kv kv' new same fresh k m =
      ground (arith, same k, fresh k, text_eq_iff key k, member-keys k plan)

  absent_key :
      (key : Text) (plan : Dict Change) (kv : Kv)
      → Fresh before ((key, delete) ∷ plan) kv
      → is_some (lookup key before) ≡ false
      → lookup key kv.items ≡ none
  unfolding member keys
  absent_key key plan kv fresh absent = let same = fresh key (rw (text_eq_refl key)) in ground arith

  Applied-from :
      (plan : Dict Change) (done : List Text) (kv : Kv)
      → IsDict plan
      → Clear kv.faults
      → Fresh before plan kv
      → (after : Kv) × Applied (apply_from before done plan kv) plan kv after
  unfolding apply_from lookup
  Applied-from [] done kv d h fresh =
      (kv, record { returns = refl; batched = refl; at_key = λ k. refl })
  Applied-from ((key, put value) ∷ plan) done kv d h fresh =
      let (made, later) = set_item-Clear key value kv h in
      let kv' = (set_item key value kv).1 in
      let fresh' =
        Fresh-next key (put value) plan kv kv' d.0
          (λ k ne. rw made.items (ground (arith, lookup-insert key k value kv.items))) fresh in
      let (after, r) = Applied-from plan (key ∷ done) kv' d.1 later fresh' in
      (
        after,
        record {
          returns = rw made.written r.returns;
          batched = r.batched ∙ made.batched;
          at_key = λ k. ground (
            arith,
            r.at_key k,
            text_eq_iff key k,
            d.0,
            ap (λ items. lookup k items) made.items,
            lookup-insert key k value kv.items,
          );
        },
      )
  Applied-from ((key, delete) ∷ plan) done kv d h fresh =
      elim (Bool-cases (is_some (lookup key before))) [
        | inl there ↦
            let (made, later) = delete_item-Clear key kv h in
            let kv' = (delete_item key kv).1 in
            let fresh' =
              Fresh-next key delete plan kv kv' d.0
                (λ k ne. rw made.items (ground (arith, lookup-erase key k kv.items))) fresh in
            let (after, r) = Applied-from plan (key ∷ done) kv' d.1 later fresh' in
            (
              after,
              record {
                returns = rw (there, made.written) r.returns;
                batched = r.batched ∙ made.batched;
                at_key = λ k. ground (
                  arith,
                  r.at_key k,
                  text_eq_iff key k,
                  d.0,
                  ap (λ items. lookup k items) made.items,
                  lookup-erase key k kv.items,
                );
              },
            )
        | inr absent ↦
            let gone = absent_key key plan kv fresh absent in
            let (after, r) =
              Applied-from plan done kv d.1 h
                (Fresh-next key delete plan kv kv d.0 (λ k ne. refl) fresh) in
            (
              after,
              record {
                returns = rw absent r.returns;
                batched = r.batched;
                at_key = λ k. ground (arith, r.at_key k, text_eq_iff key k, d.0, gone);
              },
            )
      ]

-- Where no write fails, the changes of a plan are made, whatever the order of the plan: each key
-- that the plan names holds what the plan says, and every other key what it held.
pub apply-Applied :
    (plan : Dict Change) (kv : Kv)
    → IsDict plan
    → Clear kv.faults
    → (after : Kv) × Applied (apply plan kv) plan kv after
unfolding apply held
apply-Applied plan kv d h =
    Applied-from (held kv (keys plan)) plan [] kv d h
      (λ k m. ground (arith, lookup-found_in kv.items (keys plan) k))
