-- ===== src/Conversation.antt =====
-- nontainer/conversation.py: the stored conversation on a session's key-value plane. A read that
-- raises is `none`; a write says how it ended and which store it leaves.
pub mod IndexData
pub mod Applied
pub mod Changed
pub mod Planned
pub mod Carried
pub mod Parts
pub mod Written
pub mod Migrated
pub mod Rebound
pub mod Removed
pub mod Examples
use nontainer.Prelude.{
  Text, concat, Bool, true, false, List, Option, none, some, [], ◌∷◌, ◌++◌, if◌then◌else◌, Dict,
  lookup, insert, erase, keys, keep, member, is_some, is_empty, not, ◌&&◌, ◌||◌,
}
use nontainer.Values.{
  Value, null, text, mapping, Fields, without_field, is_null, is_text, optional, or_else,
}
use nontainer.Planes.{
  Kv, Ran, returned, raised, get, set_item, delete_item, keys_under, conversation_prefix,
  conversation_index_key, conversation_record_key, conversation_run_prefix,
  legacy_conversation_prefix, legacy_session_key, legacy_run_prefix, compaction_prefix,
}
use nontainer.Conversation.IndexData.{Index, to_dict, from_dict, from_legacy}

-- What a batched read answers for a key, which a read one by one does not for a stored `None`.
abbrev pub readable : Bool → Option Value → Option Value
readable batched none = none
readable batched (some v) = if not batched && is_null v then none else some v

-- Those of the keys that are found.
unfoldable pub found_in : Bool → Dict Value → List Text → Dict Value
found_in batched items [] = []
found_in batched items (k ∷ ks) =
    let rest = found_in batched items ks in
    elim (readable batched (lookup k items)) [ none ↦ rest | some v ↦ (k, v) ∷ rest ]

-- `_get_many`
unfoldable pub get_many : Kv → List Text → Dict Value
get_many kv ks = found_in kv.batched kv.items ks

-- `_held`
unfoldable pub held : Kv → List Text → Dict Value
held kv ks = found_in true kv.items ks

module _ (str : Value → Text) where
  abbrev index_in : Value → Value → Option (Option Index)
  index_in (mapping d) legacy = elim (from_dict str d) [ none ↦ none | some i ↦ some (some i) ]
  index_in _ (mapping d) = elim (from_legacy str d) [ none ↦ none | some i ↦ some (some i) ]
  index_in _ _ = some none

  -- `none` where it raises, `some none` where no conversation is stored.
  unfoldable pub read_index : Kv → Option (Option Index)
  read_index kv = index_in (get kv conversation_index_key) (get kv legacy_session_key)

-- `_legacy`
unfoldable pub is_legacy : Kv → Option Index → Bool
is_legacy kv (some index) = index.legacy
is_legacy kv none =
    is_null (get kv conversation_index_key) && not (is_null (get kv legacy_session_key))

-- `{k: v for k, v in record.items() if k != "run_ids"}`, of a mapping.
abbrev pub without_run_ids : Value → Value
without_run_ids (mapping d) = mapping (without_field (concat "run_ids") d)
without_run_ids v = v

unfoldable pub read_record : Kv → Option Index → Value
read_record kv index =
    if is_legacy kv index
    then without_run_ids (get kv legacy_session_key)
    else get kv conversation_record_key

abbrev pub run_prefix : Bool → Text
run_prefix legacy = if legacy then legacy_run_prefix else conversation_run_prefix

unfoldable pub pick_runs : Text → Dict Value → List Text → Dict Value
pick_runs prefix found [] = []
pick_runs prefix found (rid ∷ ids) =
    let rest = pick_runs prefix found ids in
    elim (lookup (prefix ++ rid) found) [ none ↦ rest | some v ↦ (rid, v) ∷ rest ]

unfoldable pub prefixed : Text → List Text → List Text
prefixed prefix [] = []
prefixed prefix (rid ∷ ids) = (prefix ++ rid) ∷ prefixed prefix ids

unfoldable pub read_runs : Kv → List Text → Option Index → Dict Value
read_runs kv run_ids index =
    let prefix = run_prefix (is_legacy kv index) in
    pick_runs prefix (get_many kv (prefixed prefix run_ids)) run_ids

-- A planned change of a key: its new value, or `_DELETE`.
pub data Change : Type 0 where
  put : Value → Change
  delete : Change

-- One key put back as it was. A put-back that fails is passed over.
unfoldable pub restore_to : Option Value → Text → Kv → Kv
restore_to (some value) key kv = (set_item key value kv).1
restore_to none key kv = (delete_item key kv).1

-- The put-back of `_apply`, over the keys already changed, the last one first.
unfoldable pub put_back : Dict Value → List Text → Kv → Kv
put_back before [] kv = kv
put_back before (key ∷ done) kv = put_back before done (restore_to (lookup key before) key kv)

-- The loop of `_apply`, with the keys already changed, the last one first.
unfoldable pub apply_from : Dict Value → List Text → Dict Change → Kv → Ran (Unit {0})
apply_from before done [] kv = returned tt kv
apply_from before done ((key, put value) ∷ plan) kv =
    let (written, kv') = set_item key value kv in
    let rest = apply_from before (key ∷ done) plan kv' in
    if written then rest else raised (put_back before done kv')
apply_from before done ((key, delete) ∷ plan) kv =
    let (written, kv') = delete_item key kv in
    let gone = apply_from before (key ∷ done) plan kv' in
    let skipped = apply_from before done plan kv in
    if is_some (lookup key before)
    then (if written then gone else raised (put_back before done kv'))
    else skipped

-- `_apply`
unfoldable pub apply : Dict Change → Kv → Ran (Unit {0})
apply plan kv = apply_from (held kv (keys plan)) [] plan kv

-- The record that a write is given: `_KEEP`, or a value, where `None` removes it.
pub data GivenRecord : Type 0 where
  keep_record : GivenRecord
  give : Value → GivenRecord

-- The runs that the new index keeps and the write does not supply.
unfoldable pub carried : Dict Value → List Text → List Text → List Text
carried runs dropped run_ids =
    keep (λ rid. not (is_some (lookup rid runs)) && not (member rid dropped)) run_ids

-- `if value is not None: runs[rid] = value`
abbrev pub carry_one : Option Value → Text → Dict Value → Dict Value
carry_one none rid runs = runs
carry_one (some value) rid runs = insert rid value runs

-- The loop over `carry`, which adds the legacy runs to `runs`.
unfoldable pub carry_over : Dict Value → List Text → Dict Value → Dict Value
carry_over found [] runs = runs
carry_over found (rid ∷ carry) runs =
    carry_over found carry
      (carry_one (readable false (lookup (legacy_run_prefix ++ rid) found)) rid runs)

unfoldable pub plan_deletes : List Text → Dict Change → Dict Change
plan_deletes [] plan = plan
plan_deletes (key ∷ ks) plan = plan_deletes ks (insert key delete plan)

unfoldable pub plan_runs : Dict Value → Dict Change → Dict Change
plan_runs [] plan = plan
plan_runs ((rid, body) ∷ runs) plan =
    plan_runs runs (insert (conversation_run_prefix ++ rid) (put body) plan)

-- What the migration makes of a record that is kept.
abbrev pub migrated_record : GivenRecord → Value → GivenRecord
migrated_record keep_record (mapping d) = give (without_run_ids (mapping d))
migrated_record record' legacy = record'

unfoldable pub plan_record : GivenRecord → Dict Change → Dict Change
plan_record keep_record plan = plan
plan_record (give v) plan =
    insert conversation_record_key (if is_null v then delete else put v) plan

-- Everything after the legacy plane was looked at: the plan, begun with its deletions.
unfoldable pub plan_rest : Index → GivenRecord → Dict Value → List Text → Dict Change → Dict Change
plan_rest index record' runs dropped plan =
    insert conversation_index_key (put (mapping (to_dict index))) (
      plan_record record'
        (plan_runs runs (plan_deletes (prefixed conversation_run_prefix dropped) plan)))

-- The plan of `write`.
unfoldable pub planned : Index → GivenRecord → Dict Value → List Text → Kv → Dict Change
planned index record' runs dropped kv =
    let legacy = get kv legacy_session_key in
    let carry = carried runs dropped index.runs in
    if is_null legacy
    then plan_rest index record' runs dropped []
    else plan_rest index (migrated_record record' legacy)
        (carry_over (get_many kv (prefixed legacy_run_prefix carry)) carry runs) dropped
        (plan_deletes (keys_under (legacy_conversation_prefix ∷ []) kv.items) [])

unfoldable pub write : Index → GivenRecord → Dict Value → List Text → Kv → Ran (Unit {0})
write index record' runs dropped kv = apply (planned index record' runs dropped kv) kv

-- The end of `rebind` and `reclaim`: whether anything was written.
abbrev and_true : Ran (Unit {0}) → Ran Bool
and_true (returned u kv) = returned true kv
and_true (raised kv) = raised kv

module _ (str : Value → Text) where
  unfoldable pub rebind : Text → Text → Kv → Ran Bool
  rebind child parent kv = elim (read_index str kv) [
    | none ↦ raised kv
    | some none ↦ returned false kv
    | some (some index) ↦
        let bound = record index {
          session = text child;
          forked_from = or_else index.session (text parent);
        } in
        if is_text child index.session
        then returned false kv
        else and_true (write bound keep_record [] [] kv)
  ]

  unfoldable pub reclaim : Text → Option Text → Kv → Ran Bool
  reclaim session lineage kv = elim (read_index str kv) [
    | none ↦ raised kv
    | some none ↦ returned false kv
    | some (some index) ↦
        let bound = record index {
          session = text session;
          forked_from = or_else (optional lineage) index.session;
        } in
        if is_null index.session || is_text session index.session
        then returned false kv
        else and_true (write bound keep_record [] [] kv)
  ]

-- The loop of `wipe` and `clear`; a deletion that fails raises with the rest undone.
unfoldable pub delete_all : List Text → Kv → Ran (Unit {0})
delete_all [] kv = returned tt kv
delete_all (key ∷ ks) kv =
    let (written, kv') = delete_item key kv in
    let rest = delete_all ks kv' in if written then rest else raised kv'

abbrev pub and_found : List Text → Ran (Unit {0}) → Ran Bool
and_found ks (returned u kv) = returned (not (is_empty ks)) kv
and_found ks (raised kv) = raised kv

abbrev pub wiped_prefixes : List Text
wiped_prefixes = conversation_prefix ∷ legacy_conversation_prefix ∷ compaction_prefix ∷ []

abbrev pub cleared_prefixes : List Text
cleared_prefixes = conversation_prefix ∷ legacy_conversation_prefix ∷ []

abbrev remove_under : List Text → Kv → Ran Bool
remove_under prefixes kv = let ks = keys_under prefixes kv.items in and_found ks (delete_all ks kv)

unfoldable pub wipe : Kv → Ran Bool
wipe kv = remove_under wiped_prefixes kv

unfoldable pub clear : Kv → Ran Bool
clear kv = remove_under cleared_prefixes kv
