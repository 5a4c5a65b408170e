-- ===== src/Conversation/Planned.antt =====
-- What the plan of `write` in nontainer/conversation.py says of each key.
use nontainer.Prelude.{
  Text, false, List, Option, none, some, [], ◌∷◌, ◌++◌, if◌then◌else◌, Dict, IsDict, lookup, insert,
  member, lookup-insert, insert-IsDict, text_eq, text_eq_iff, text_eq-append, starts_with,
  starts_with-append, text_eq_refl, ◌≡◌, refl, ◌∙◌, arith,
}
use nontainer.Values.{Value, is_null, mapping}
use nontainer.Planes.{conversation_record_key, conversation_run_prefix, conversation_index_key}
use nontainer.Conversation.IndexData.{Index, to_dict}
use nontainer.Conversation.{
  Change, put, delete, GivenRecord, keep_record, give, prefixed, plan_deletes, plan_runs,
  plan_record, plan_rest,
}

pub lookup-plan_deletes :
    (ks : List Text) (plan : Dict Change) (k : Text)
    → lookup k (plan_deletes ks plan) ≡ (if member k ks then some delete else lookup k plan)
unfolding plan_deletes member
lookup-plan_deletes [] plan k = refl
lookup-plan_deletes (j ∷ ks) plan k =
    ground (arith, lookup-plan_deletes ks (insert j delete plan) k, lookup-insert j k delete plan)

pub plan_deletes-IsDict :
    (ks : List Text) (plan : Dict Change) → IsDict plan → IsDict (plan_deletes ks plan)
unfolding plan_deletes
plan_deletes-IsDict [] plan d = d
plan_deletes-IsDict (j ∷ ks) plan d =
    plan_deletes-IsDict ks (insert j delete plan) (insert-IsDict j delete plan d)

pub member-prefixed :
    (p rid : Text) (ids : List Text) → member (p ++ rid) (prefixed p ids) ≡ member rid ids
unfolding member prefixed
member-prefixed p rid [] = refl
member-prefixed p rid (j ∷ ids) = rw (text_eq-append p j rid, member-prefixed p rid ids)

ne-prefixed : (p rid k : Text) → starts_with p k ≡ false → text_eq (p ++ rid) k ≡ false
ne-prefixed p rid k h = ground (arith, text_eq_iff (p ++ rid) k, starts_with-append p rid)

abbrev pub put_option : Option Value → Option Change → Option Change
put_option none old = old
put_option (some body) old = some (put body)

-- The bodies that are stored under the runs' keys.
lookup-plan_runs :
    (runs : Dict Value) (plan : Dict Change) (rid : Text)
    → IsDict runs
    → lookup (conversation_run_prefix ++ rid) (plan_runs runs plan)
      ≡ put_option (lookup rid runs) (lookup (conversation_run_prefix ++ rid) plan)
unfolding plan_runs lookup
lookup-plan_runs [] plan rid d = refl
lookup-plan_runs ((j, body) ∷ runs) plan rid d = ground (
  arith,
  d.0,
  text_eq_iff j rid,
  text_eq-append conversation_run_prefix j rid,
  lookup-plan_runs runs (insert (conversation_run_prefix ++ j) (put body) plan) rid d.1,
  lookup-insert (conversation_run_prefix ++ j) (conversation_run_prefix ++ rid) (put body) plan,
)

lookup-plan_runs_other :
    (runs : Dict Value) (plan : Dict Change) (k : Text)
    → starts_with conversation_run_prefix k ≡ false
    → lookup k (plan_runs runs plan) ≡ lookup k plan
unfolding plan_runs
lookup-plan_runs_other [] plan k h = refl
lookup-plan_runs_other ((j, body) ∷ runs) plan k h =
    lookup-plan_runs_other runs (insert (conversation_run_prefix ++ j) (put body) plan) k h
    ∙ ground (
      arith,
      ne-prefixed conversation_run_prefix j k h,
      lookup-insert (conversation_run_prefix ++ j) k (put body) plan,
    )

plan_runs-IsDict :
    (runs : Dict Value) (plan : Dict Change) → IsDict plan → IsDict (plan_runs runs plan)
unfolding plan_runs
plan_runs-IsDict [] plan d = d
plan_runs-IsDict ((j, body) ∷ runs) plan d =
    plan_runs-IsDict runs (insert (conversation_run_prefix ++ j) (put body) plan)
      (insert-IsDict (conversation_run_prefix ++ j) (put body) plan d)

not_member-prefixed :
    (p k : Text) (ids : List Text) → starts_with p k ≡ false → member k (prefixed p ids) ≡ false
unfolding member prefixed
not_member-prefixed p k [] h = refl
not_member-prefixed p k (j ∷ ids) h =
    ground (arith, ne-prefixed p j k h, not_member-prefixed p k ids h)

-- What a plan does to the record.
abbrev pub record_change : GivenRecord → Option Change → Option Change
record_change keep_record old = old
record_change (give v) old = some (if is_null v then delete else put v)

lookup-plan_record :
    (given : GivenRecord) (plan : Dict Change) (k : Text)
    → lookup k (plan_record given plan) ≡ (
        if text_eq conversation_record_key k
        then record_change given (lookup k plan)
        else lookup k plan)
unfolding plan_record
lookup-plan_record keep_record plan k = ground arith
lookup-plan_record (give v) plan k =
    ground
      (arith, lookup-insert conversation_record_key k (if is_null v then delete else put v) plan)

plan_record-IsDict :
    (given : GivenRecord) (plan : Dict Change) → IsDict plan → IsDict (plan_record given plan)
unfolding plan_record
plan_record-IsDict keep_record plan d = d
plan_record-IsDict (give v) plan d = insert-IsDict conversation_record_key _ plan d

-- The part of the plan that does not depend on the legacy plane, at each kind of key.
module _ (index : Index) (given : GivenRecord) (runs : Dict Value) (dropped : List Text)
    (plan : Dict Change) where
  pub plan_rest-IsDict : IsDict plan → IsDict (plan_rest index given runs dropped plan)
  unfolding plan_rest
  plan_rest-IsDict d = insert-IsDict conversation_index_key _ _ (
      plan_record-IsDict given _ (
        plan_runs-IsDict runs _
          (plan_deletes-IsDict (prefixed conversation_run_prefix dropped) plan d)))

  pub plan_rest-index :
      lookup conversation_index_key (plan_rest index given runs dropped plan)
      ≡ some (put (mapping (to_dict index)))
  unfolding plan_rest
  plan_rest-index = rw (lookup-insert, text_eq_refl)

  pub plan_rest-run :
      (rid : Text)
      → IsDict runs
      → lookup (conversation_run_prefix ++ rid) (plan_rest index given runs dropped plan)
        ≡ put_option (lookup rid runs) (
            if member rid dropped
            then some delete
            else lookup (conversation_run_prefix ++ rid) plan)
  unfolding plan_rest
  plan_rest-run rid d =
      rw
        (
          lookup-insert,
          lookup-plan_record,
          lookup-plan_runs runs _ rid d,
          lookup-plan_deletes,
          member-prefixed,
        )
        (unfold text_eq in refl)

  pub plan_rest-record :
      lookup conversation_record_key (plan_rest index given runs dropped plan)
      ≡ record_change given (lookup conversation_record_key plan)
  unfolding plan_rest
  plan_rest-record =
      rw
        (
          lookup-insert,
          lookup-plan_record,
          lookup-plan_runs_other runs _ conversation_record_key (unfold starts_with in refl),
          lookup-plan_deletes,
          not_member-prefixed conversation_run_prefix conversation_record_key dropped
              (unfold starts_with in refl),
        )
        (unfold text_eq in refl)

  -- Any other key.
  pub plan_rest-other :
      (k : Text)
      → text_eq conversation_index_key k ≡ false
      → text_eq conversation_record_key k ≡ false
      → starts_with conversation_run_prefix k ≡ false
      → lookup k (plan_rest index given runs dropped plan) ≡ lookup k plan
  unfolding plan_rest
  plan_rest-other k i r s = rw (
    lookup-insert,
    i,
    lookup-plan_record,
    r,
    lookup-plan_runs_other runs _ k s,
    lookup-plan_deletes,
    not_member-prefixed conversation_run_prefix k dropped s,
  )
