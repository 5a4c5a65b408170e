-- ===== src/Conversation/Migrated.antt =====
-- The migration that `write` of nontainer/conversation.py makes: no run is lost.
use nontainer.Prelude.{
  Text, Bool, true, false, List, some, [], ◌++◌, lookup, member, ◌≡◌, ◌∙◌, refl, ◌⊎◌, inl, inr,
  arith, Option-cases,
}
use nontainer.Values.{Value, mapping, Fields, is_null}
use nontainer.Planes.Writes.{Clear}
use nontainer.Planes.{
  Kv, returned, get, conversation_index_key, conversation_run_prefix, legacy_session_key,
}
use nontainer.Conversation.IndexData.{Index, from_dict, from_legacy}
use nontainer.Conversation.{index_in, keep_record, run_prefix, read_index, write}
use nontainer.Conversation.Parts.{is_migration, legacy_run}
use nontainer.Conversation.Carried.{first_held}
use nontainer.Conversation.Written.{Written, write-Written}

-- Which plane an index was read from.
from_dict-legacy :
    (str : Value → Text) (d : Fields) (index : Index)
    → from_dict str d ≡ some index
    → index.legacy ≡ false
unfolding from_dict
from_dict-legacy str d index h = ground arith

from_legacy-legacy :
    (str : Value → Text) (d : Fields) (index : Index)
    → from_legacy str d ≡ some index
    → index.legacy ≡ true
unfolding from_legacy
from_legacy-legacy str d index h = ground arith

-- The value behind a key, for an index that was read from it, is no `None`.
index_in-legacy :
    (str : Value → Text) (a b : Value) (index : Index)
    → index_in str a b ≡ some (some index)
    → ((index.legacy ≡ false) × (is_null a ≡ false)) ⊎ ((index.legacy ≡ true) × (is_null b ≡ false))
index_in-legacy str (mapping d) b index h = elim (Option-cases (from_dict str d)) [
  | inl e ↦ absurd (cc (e, h))
  | inr (i, e) ↦ inl (from_dict-legacy str d index (ground (arith, e)), refl)
]
index_in-legacy str _ (mapping d) index h = elim (Option-cases (from_legacy str d)) [
  | inl e ↦ absurd (cc (e, h))
  | inr (i, e) ↦ inr (from_legacy-legacy str d index (ground (arith, e)), refl)
]
index_in-legacy str _ _ index h = absurd (cc)

-- A head holds one plane at most.
abbrev pub OnePlane : Kv → Type 0
OnePlane kv =
    (is_null (get kv conversation_index_key) ≡ true) ⊎ (is_null (get kv legacy_session_key) ≡ true)

pub legacy-is_migration :
    (str : Value → Text) (kv : Kv) (index : Index)
    → OnePlane kv
    → read_index str kv ≡ some (some index)
    → is_migration kv ≡ index.legacy
unfolding read_index
legacy-is_migration str kv index one e =
    ground (
      arith,
      index_in-legacy str (get kv conversation_index_key) (get kv legacy_session_key) index e,
    )

kept_at :
    (b : Bool) (run_ids : List Text) (kv : Kv) (rid : Text) (body : Value)
    → member rid run_ids ≡ true
    → lookup (run_prefix b ++ rid) kv.items ≡ some body
    → is_null body ≡ false
    → first_held (legacy_run b [] run_ids kv rid) (lookup (conversation_run_prefix ++ rid) kv.items)
      ≡ some body
unfolding member
kept_at false run_ids kv rid body m held n = held
kept_at true run_ids kv rid body m held n = rw (m, held, n)

-- What such a write leaves of a run of the index.
pub Written-run_kept :
    (str : Value → Text) (kv after : Kv) (index index' : Index) (rid : Text) (body : Value)
    → OnePlane kv
    → read_index str kv ≡ some (some index)
    → index'.runs ≡ index.runs
    → Written index' keep_record [] [] kv after
    → member rid index.runs ≡ true
    → lookup (run_prefix index.legacy ++ rid) kv.items ≡ some body
    → is_null body ≡ false
    → lookup (conversation_run_prefix ++ rid) after.items ≡ some body
unfolding lookup member
Written-run_kept str kv after index index' rid body one e same w m held n =
    w.runs_stored rid
    ∙ rw (legacy-is_migration str kv index one e, same)
        (kept_at index.legacy index.runs kv rid body m held n)

-- No run is lost: on a head that holds one plane at most, whichever it is, and a store of which no write
-- fails, a write of an index with the runs of the one there, which supplies no run and drops none,
-- returns and leaves the body of each of these runs readable on the conversation's plane.
pub runs_kept :
    (str : Value → Text) (kv : Kv) (index index' : Index) (rid : Text) (body : Value)
    → Clear kv.faults
    → OnePlane kv
    → read_index str kv ≡ some (some index)
    → index'.runs ≡ index.runs
    → member rid index.runs ≡ true
    → lookup (run_prefix index.legacy ++ rid) kv.items ≡ some body
    → is_null body ≡ false
    → (after : Kv) × (write index' keep_record [] [] kv ≡ returned tt after)
      × (lookup (conversation_run_prefix ++ rid) after.items ≡ some body)
runs_kept str kv index index' rid body c one e same m held n =
    let (after, w) = write-Written index' keep_record [] [] kv tt c in
    (after, w.returns, Written-run_kept str kv after index index' rid body one e same w m held n)
