-- ===== src/Conversation/Parts.antt =====
-- The parts of the plan of `write` in nontainer/conversation.py, with a legacy plane and without.
use nontainer.Prelude.{
  Text, Bool, true, false, List, Option, none, some, [], ◌∷◌, ◌++◌, if◌then◌else◌, not, ◌&&◌, Dict,
  IsDict, lookup, member, lookup-nil, is_some, starts_with, ◌≡◌, arith, Bool-cases, inl, inr,
}
use nontainer.Values.{Value, is_null}
use nontainer.Planes.{
  Kv, get, keys_under, conversation_run_prefix, legacy_conversation_prefix, legacy_session_key,
  legacy_run_prefix,
}
use nontainer.Conversation.IndexData.{Index}
use nontainer.Conversation.{
  readable, get_many, Change, delete, GivenRecord, carried, carry_over, prefixed, migrated_record,
  plan_deletes, plan_rest, planned,
}
use nontainer.Conversation.Planned.{lookup-plan_deletes, plan_deletes-IsDict}
use nontainer.Conversation.Carried.{
  first_held, carry_over-IsDict, lookup-carried, member-keys_under,
}

-- The plan's beginning: the legacy keys' deletions, where there is a legacy plane.
abbrev pub first_part : Bool → Kv → Dict Change
first_part false kv = []
first_part true kv = plan_deletes (keys_under (legacy_conversation_prefix ∷ []) kv.items) []

abbrev pub all_runs : Bool → Dict Value → List Text → List Text → Kv → Dict Value
all_runs false runs dropped run_ids kv = runs
all_runs true runs dropped run_ids kv =
    let carry = carried runs dropped run_ids in
    carry_over (get_many kv (prefixed legacy_run_prefix carry)) carry runs

abbrev pub effective_record : Bool → GivenRecord → Kv → GivenRecord
effective_record false given kv = given
effective_record true given kv = migrated_record given (get kv legacy_session_key)

-- Whether a legacy plane is there.
abbrev pub is_migration : Kv → Bool
is_migration kv = not (is_null (get kv legacy_session_key))

pub planned_parts :
    (index : Index) (given : GivenRecord) (runs : Dict Value) (dropped : List Text) (kv : Kv)
    → planned index given runs dropped kv
      ≡ plan_rest index
          (effective_record (is_migration kv) given kv)
          (all_runs (is_migration kv) runs dropped index.runs kv)
          dropped
          (first_part (is_migration kv) kv)
unfolding planned
planned_parts index given runs dropped kv =
    elim (Bool-cases (is_null (get kv legacy_session_key))) [ inl e ↦ rw e | inr e ↦ rw e ]

pub first_part-IsDict : (b : Bool) (kv : Kv) → IsDict (first_part b kv)
first_part-IsDict false kv = tt
first_part-IsDict true kv =
    plan_deletes-IsDict (keys_under (legacy_conversation_prefix ∷ []) kv.items) [] tt

pub lookup-first_part :
    (b : Bool) (kv : Kv) (k : Text)
    → lookup k (first_part b kv) ≡ (
        if b && (starts_with legacy_conversation_prefix k && is_some (lookup k kv.items))
        then some delete
        else none)
lookup-first_part false kv k = lookup-nil k
lookup-first_part true kv k = rw (lookup-plan_deletes, lookup-nil, member-keys_under)

pub all_runs-IsDict :
    (b : Bool) (runs : Dict Value) (dropped run_ids : List Text) (kv : Kv)
    → IsDict runs
    → IsDict (all_runs b runs dropped run_ids kv)
all_runs-IsDict false runs dropped run_ids kv d = d
all_runs-IsDict true runs dropped run_ids kv d = carry_over-IsDict _ _ runs d

-- The legacy run that a write carries over, if it does.
abbrev pub legacy_run : Bool → List Text → List Text → Kv → Text → Option Value
legacy_run migration dropped run_ids kv rid =
    if migration && (not (member rid dropped) && member rid run_ids)
    then readable false (lookup (legacy_run_prefix ++ rid) kv.items)
    else none

pub lookup-all_runs :
    (b : Bool) (runs : Dict Value) (dropped run_ids : List Text) (kv : Kv) (rid : Text)
    → lookup rid (all_runs b runs dropped run_ids kv)
      ≡ first_held (lookup rid runs) (legacy_run b dropped run_ids kv rid)
lookup-all_runs false runs dropped run_ids kv rid = ground arith
lookup-all_runs true runs dropped run_ids kv rid = lookup-carried runs dropped run_ids kv rid

-- What the run of an id holds after a write: the body supplied, or the legacy plane's, or, unless
-- it is dropped, what it held.
abbrev pub run_after : Index → Dict Value → List Text → Kv → Text → Option Value
run_after index runs dropped kv rid = first_held (lookup rid runs) (
    first_held (legacy_run (is_migration kv) dropped index.runs kv rid)
      (if member rid dropped then none else lookup (conversation_run_prefix ++ rid) kv.items))
