-- ===== src/Planes.antt =====
-- nontainer/planes.py: the prefixes that part a session's keys, and the store that they stand in.
pub mod Writes
use nontainer.Prelude.{
  Text, concat, ℕ, Bool, true, false, List, Option, none, some, [], ◌∷◌, ◌++◌, if◌then◌else◌, Dict,
  lookup, insert, erase, keys, keep, starts_with, any, ◌||◌,
}
use nontainer.Values.{Value, null, is_null}

abbrev pub cache_prefix : Text
cache_prefix = concat "__cache__/"

abbrev pub conversation_prefix : Text
conversation_prefix = concat "__conversation__/"

abbrev pub conversation_index_key : Text
conversation_index_key = concat "__conversation__/index"

abbrev pub conversation_record_key : Text
conversation_record_key = concat "__conversation__/record"

abbrev pub conversation_run_prefix : Text
conversation_run_prefix = concat "__conversation__/runs/"

abbrev pub legacy_conversation_prefix : Text
legacy_conversation_prefix = concat "__agno__/"

abbrev pub legacy_session_key : Text
legacy_session_key = concat "__agno__/session"

abbrev pub legacy_run_prefix : Text
legacy_run_prefix = concat "__agno__/runs/"

abbrev pub compaction_prefix : Text
compaction_prefix = concat "__compaction__/"

-- A provider's `kv`: its items, whether it offers `get_many`, and which of the coming writes
-- fail (those past the list's end do not). A write that fails changes nothing and raises.
pub record Kv : Type 0 where
  pub items : Dict Value
  pub batched : Bool
  pub faults : List Bool

-- How a call ends: it returns, or it raises, with the store that it leaves.
pub data Ran (A : Type 0) : Type 0 where
  returned : A → Kv → Ran A
  raised : Kv → Ran A

infixl 5 ◌>>=◌
abbrev pub ◌>>=◌ : {A B : Type 0} → Ran A → (A → Kv → Ran B) → Ran B
returned a kv >>= f = f a kv
raised kv >>= f = raised kv

-- `kv.get(key)`
unfoldable pub get : Kv → Text → Value
get kv key = elim (lookup key kv.items) [ none ↦ null | some v ↦ v ]

abbrev pub write_faulty : (Dict Value → Dict Value) → Kv → List Bool → Bool × Kv
write_faulty f kv [] = (true, record kv { items = f kv.items; faults = [] })
write_faulty f kv (true ∷ faults) = (false, record kv { faults = faults })
write_faulty f kv (false ∷ faults) = (true, record kv { items = f kv.items; faults = faults })

-- `kv[key] = value`, and whether it did not raise.
unfoldable pub set_item : Text → Value → Kv → Bool × Kv
set_item key value kv = write_faulty (insert key value) kv kv.faults

-- `del kv[key]`, of a key that is there.
unfoldable pub delete_item : Text → Kv → Bool × Kv
delete_item key kv = write_faulty (erase key) kv kv.faults

-- `_keys_under`
unfoldable pub keys_under : List Text → Dict Value → List Text
keys_under prefixes items = keep (λ k. any (λ p. starts_with p k) prefixes) (keys items)
