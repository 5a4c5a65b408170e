-- ===== src/Conversation/Written.antt =====
-- What `write` of nontainer/conversation.py leaves in the store, the migration included.
use nontainer.Prelude.{
  Text, Bool, true, false, List, Option, none, some, ◌++◌, if◌then◌else◌, ◌&&◌, Dict, IsDict,
  lookup, member, is_some, text_eq, text_eq_iff, starts_with, starts_with_split, ◌≡◌, refl, ap,
  arith, Bool-cases, inl, inr,
}
use nontainer.Values.{Value, mapping, IsStr}
use nontainer.Planes.{
  Kv, returned, conversation_prefix, conversation_index_key, conversation_record_key,
  conversation_run_prefix, legacy_conversation_prefix,
}
use nontainer.Planes.Writes.{Clear, get_found}
use nontainer.Conversation.IndexData.{Index, to_dict, from_dict-to_dict}
use nontainer.Conversation.{index_in, delete, GivenRecord, plan_rest, planned, write, read_index}
use nontainer.Conversation.Changed.{changed, Applied, apply-Applied}
use nontainer.Conversation.Planned.{
  put_option, record_change, plan_rest-IsDict, plan_rest-index, plan_rest-run, plan_rest-record,
  plan_rest-other,
}
use nontainer.Conversation.Carried.{first_held}
use nontainer.Conversation.Parts.{
  first_part, all_runs, effective_record, is_migration, planned_parts, first_part-IsDict,
  lookup-first_part, all_runs-IsDict, legacy_run, lookup-all_runs, run_after,
}

pub record Written (index : Index) (given : GivenRecord) (runs : Dict Value) (dropped : List Text)
    (kv after : Kv) : Type 0 where
  pub returns : write index given runs dropped kv ≡ returned tt after
  pub batched : after.batched ≡ kv.batched
  pub index_stored : lookup conversation_index_key after.items ≡ some (mapping (to_dict index))
  pub runs_stored :
      (rid : Text)
      → lookup (conversation_run_prefix ++ rid) after.items ≡ run_after index runs dropped kv rid
  pub record_stored :
      lookup conversation_record_key after.items
      ≡ changed
          (record_change (effective_record (is_migration kv) given kv) none)
          (lookup conversation_record_key kv.items)
  pub migrated :
      (k : Text)
      → starts_with legacy_conversation_prefix k ≡ true
      → lookup k after.items ≡ (if is_migration kv then none else lookup k kv.items)
  pub others_kept :
      (k : Text)
      → starts_with conversation_prefix k ≡ false
      → starts_with legacy_conversation_prefix k ≡ false
      → lookup k after.items ≡ lookup k kv.items

put_option_changed :
    (o carry old : Option Value) (b : Bool)
    → changed (put_option (first_held o carry) (if b then some delete else none)) old
      ≡ first_held o (first_held carry (if b then none else old))
put_option_changed none none old b = ground arith
put_option_changed none (some v) old b = refl
put_option_changed (some w) carry old b = refl

legacy_changed :
    (m s : Bool) (old : Option Value)
    → changed (if m && (s && is_some old) then some delete else none) old
      ≡ (if m && s then none else old)
legacy_changed m s none = ground arith
legacy_changed m s (some v) = ground arith

no_deletion : (m : Bool) → (if m && false then some delete else none) ≡ none
no_deletion m = ground arith

-- A key outside the conversation's prefix is no key of the plan's last part.
index_key_other :
    (k : Text)
    → starts_with conversation_prefix k ≡ false
    → text_eq conversation_index_key k ≡ false
unfolding starts_with
index_key_other k h = ground (
  arith,
  text_eq_iff conversation_index_key k,
  λ (e : conversation_index_key ≡ k). ap (starts_with conversation_prefix) e,
)

-- A key that starts with a longer prefix starts with the shorter.
shorter_prefix :
    (k : Text)
    → starts_with conversation_prefix k ≡ false
    → starts_with conversation_run_prefix k ≡ false
unfolding starts_with
shorter_prefix k h = elim (Bool-cases (starts_with conversation_run_prefix k)) [
  | inl s ↦
      let (rest, e) = starts_with_split conversation_run_prefix k s in
      cc (ap (starts_with conversation_prefix) e)
  | inr s ↦ s
]

record_key_other :
    (k : Text)
    → starts_with conversation_prefix k ≡ false
    → text_eq conversation_record_key k ≡ false
unfolding starts_with
record_key_other k h = ground (
  arith,
  text_eq_iff conversation_record_key k,
  λ (e : conversation_record_key ≡ k). ap (starts_with conversation_prefix) e,
)

-- A legacy key is none of the conversation's.
legacy_key_other :
    (k : Text)
    → starts_with legacy_conversation_prefix k ≡ true
    → starts_with conversation_prefix k ≡ false
unfolding starts_with
legacy_key_other k h = let (rest, e) = starts_with_split legacy_conversation_prefix k h in rw e

module _ (index : Index) (given : GivenRecord) (runs : Dict Value) (dropped : List Text)
    (kv after : Kv)
    (r : Applied
      (write index given runs dropped kv)
      (planned index given runs dropped kv)
      kv
      after) where
  planned_at :
      (k : Text)
      → lookup k after.items
        ≡ changed
            (lookup k (
              plan_rest index
                (effective_record (is_migration kv) given kv)
                (all_runs (is_migration kv) runs dropped index.runs kv)
                dropped
                (first_part (is_migration kv) kv)))
            (lookup k kv.items)
  planned_at k = rw (← planned_parts index given runs dropped kv) (r.at_key k)

  run_at :
      (rid : Text)
      → IsDict runs
      → lookup (conversation_run_prefix ++ rid) after.items ≡ run_after index runs dropped kv rid
  run_at rid d =
      rw
        (
          planned_at,
          plan_rest-run index _ _ dropped _ rid
              (all_runs-IsDict (is_migration kv) runs dropped index.runs kv d),
          lookup-all_runs,
          lookup-first_part,
        )
        (unfold starts_with in
          rw no_deletion (
            put_option_changed (lookup rid runs)
              (legacy_run (is_migration kv) dropped index.runs kv rid)
              (lookup (conversation_run_prefix ++ rid) kv.items) (member rid dropped)))

  outside_at :
      (k : Text)
      → starts_with conversation_prefix k ≡ false
      → lookup k after.items ≡ (
          if is_migration kv && starts_with legacy_conversation_prefix k
          then none
          else lookup k kv.items)
  outside_at k h =
      rw
        (
          planned_at,
          plan_rest-other index _ _ dropped _ k (index_key_other k h) (record_key_other k h)
              (shorter_prefix k h),
          lookup-first_part,
        )
        (legacy_changed (is_migration kv) (starts_with legacy_conversation_prefix k)
          (lookup k kv.items))

  record_at :
      lookup conversation_record_key after.items
      ≡ changed
          (record_change (effective_record (is_migration kv) given kv) none)
          (lookup conversation_record_key kv.items)
  record_at =
      rw (planned_at, plan_rest-record, lookup-first_part) (unfold starts_with in rw no_deletion)

planned-IsDict :
    (index : Index) (given : GivenRecord) (runs : Dict Value) (dropped : List Text) (kv : Kv)
    → IsDict (planned index given runs dropped kv)
planned-IsDict index given runs dropped kv =
    rw (planned_parts index given runs dropped kv)
      (plan_rest-IsDict index _ _ dropped _ (first_part-IsDict (is_migration kv) kv))

-- A write on a store of which no write fails returns, and leaves: the index; for each run the
-- body supplied, or else, in a migration, the legacy plane's for a run that the index keeps and
-- that is not dropped, or else nothing for one that is dropped, or else what it held; the record
-- as given, or the migrated one; no key of the legacy plane, if there was one; and all other
-- planes as they were.
pub write-Written :
    (index : Index) (given : GivenRecord) (runs : Dict Value) (dropped : List Text) (kv : Kv)
    → IsDict runs
    → Clear kv.faults
    → (after : Kv) × Written index given runs dropped kv after
write-Written index given runs dropped kv d h =
    let plan = planned index given runs dropped kv in
    let (after, r) = apply-Applied plan kv (planned-IsDict index given runs dropped kv) h in
    let r' : Applied (write index given runs dropped kv) plan kv after = unfold write in r in
    (
      after,
      record {
        returns = r'.returns;
        batched = r'.batched;
        index_stored = rw (planned_at index given runs dropped kv after r', plan_rest-index);
        runs_stored = λ rid. run_at index given runs dropped kv after r' rid d;
        record_stored = record_at index given runs dropped kv after r';
        migrated = λ k l.
            ground
              (arith, outside_at index given runs dropped kv after r' k (legacy_key_other k l));
        others_kept = λ k c l. ground (arith, outside_at index given runs dropped kv after r' k c);
      },
    )

-- The index that is read after a write is the one that was written, on no legacy plane.
pub read_index-write :
    (str : Value → Text) (index : Index) (given : GivenRecord) (runs : Dict Value)
    (dropped : List Text) (kv after : Kv)
    → IsStr str
    → Written index given runs dropped kv after
    → read_index str after ≡ some (some (record index { legacy = false }))
unfolding read_index
read_index-write str index given runs dropped kv after h w = rw (
  get_found after conversation_index_key _ w.index_stored,
  from_dict-to_dict str h index,
  index_in,
)
