-- ===== src/Conversation/Carried.antt =====
-- The runs that `write` of nontainer/conversation.py carries over from the legacy plane.
use nontainer.Prelude.{
  Text, Bool, false, List, Option, none, some, [], ◌∷◌, ◌++◌, if◌then◌else◌, not, ◌&&◌, Dict,
  IsDict, lookup, keys, member, member-keep, member-keys, lookup-insert, insert-IsDict, is_some,
  text_eq, text_eq_iff, starts_with, any, ◌≡◌, refl, arith, Option-cases, inl, inr,
}
use nontainer.Values.{Value}
use nontainer.Planes.{Kv, keys_under, legacy_run_prefix}
use nontainer.Conversation.{readable, found_in, get_many, carried, carry_one, carry_over, prefixed}
use nontainer.Conversation.Planned.{member-prefixed}

-- The first that is there.
abbrev pub first_held : Option Value → Option Value → Option Value
first_held none old = old
first_held (some v) old = some v

lookup-found_in_any :
    (batched : Bool) (items : Dict Value) (ks : List Text) (k : Text)
    → lookup k (found_in batched items ks)
      ≡ (if member k ks then readable batched (lookup k items) else none)
unfolding found_in lookup member
lookup-found_in_any batched items [] k = refl
lookup-found_in_any batched items (j ∷ ks) k =
    elim (Option-cases (readable batched (lookup j items))) [
      | inl e ↦
          rw (e, found_in)
            (ground (arith, e, text_eq_iff j k, lookup-found_in_any batched items ks k))
      | inr (v, e) ↦
          rw (e, found_in)
            (ground (arith, e, text_eq_iff j k, lookup-found_in_any batched items ks k))
    ]

readable_twice :
    (batched : Bool) (o : Option Value) → readable false (readable batched o) ≡ readable false o
readable_twice batched none = refl
readable_twice batched (some v) = ground arith

lookup-carry_one :
    (o : Option Value) (j rid : Text) (runs : Dict Value)
    → lookup rid (carry_one o j runs)
      ≡ (if text_eq j rid then first_held o (lookup rid runs) else lookup rid runs)
lookup-carry_one none j rid runs = ground arith
lookup-carry_one (some v) j rid runs = ground (arith, lookup-insert j rid v runs)

first_held_twice : (o old : Option Value) → first_held o (first_held o old) ≡ first_held o old
first_held_twice none old = refl
first_held_twice (some v) old = refl

lookup-carry_over :
    (found : Dict Value) (carry : List Text) (runs : Dict Value) (rid : Text)
    → lookup rid (carry_over found carry runs) ≡ (
        if member rid carry
        then first_held (readable false (lookup (legacy_run_prefix ++ rid) found)) (lookup rid runs)
        else lookup rid runs)
unfolding carry_over member
lookup-carry_over found [] runs rid = refl
lookup-carry_over found (j ∷ carry) runs rid =
    let o = readable false (lookup (legacy_run_prefix ++ j) found) in
    ground (
      arith,
      text_eq_iff j rid,
      lookup-carry_over found carry (carry_one o j runs) rid,
      lookup-carry_one o j rid runs,
      first_held_twice o (lookup rid runs),
    )

carry_one-IsDict :
    (o : Option Value) (j : Text) (runs : Dict Value) → IsDict runs → IsDict (carry_one o j runs)
carry_one-IsDict none j runs d = d
carry_one-IsDict (some v) j runs d = insert-IsDict j v runs d

pub carry_over-IsDict :
    (found : Dict Value) (carry : List Text) (runs : Dict Value)
    → IsDict runs
    → IsDict (carry_over found carry runs)
unfolding carry_over
carry_over-IsDict found [] runs d = d
carry_over-IsDict found (j ∷ carry) runs d =
    carry_over-IsDict found carry _
      (carry_one-IsDict (readable false (lookup (legacy_run_prefix ++ j) found)) j runs d)

-- A run that is neither supplied nor dropped is carried over from the legacy plane, if the index
-- keeps it and the legacy plane holds it.
pub lookup-carried :
    (runs : Dict Value) (dropped run_ids : List Text) (kv : Kv) (rid : Text)
    → lookup rid (
        carry_over
          (get_many kv (prefixed legacy_run_prefix (carried runs dropped run_ids)))
          (carried runs dropped run_ids)
          runs)
      ≡ first_held (lookup rid runs) (
          if not (member rid dropped) && member rid run_ids
          then readable false (lookup (legacy_run_prefix ++ rid) kv.items)
          else none)
unfolding get_many carried
lookup-carried runs dropped run_ids kv rid =
    let carry = carried runs dropped run_ids in
    let test = λ (r : Text). not (is_some (lookup r runs)) && not (member r dropped) in
    ground (
      arith,
      lookup-carry_over (get_many kv (prefixed legacy_run_prefix carry)) carry runs rid,
      lookup-found_in_any kv.batched kv.items (prefixed legacy_run_prefix carry)
          (legacy_run_prefix ++ rid),
      member-prefixed legacy_run_prefix rid carry,
      member-keep test rid run_ids,
      readable_twice kv.batched (lookup (legacy_run_prefix ++ rid) kv.items),
    )

-- The legacy keys that are planned for deletion are those that are there.
pub member-keys_under :
    (k prefix : Text) (items : Dict Value)
    → member k (keys_under (prefix ∷ []) items) ≡ (starts_with prefix k && is_some (lookup k items))
unfolding keys_under
member-keys_under k prefix items = ground (
  arith,
  member-keep (λ j. any (λ p. starts_with p j) (prefix ∷ [])) k (keys items),
  member-keys k items,
)
