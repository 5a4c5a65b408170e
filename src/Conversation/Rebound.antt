-- ===== src/Conversation/Rebound.antt =====
-- `rebind` and `reclaim` of nontainer/conversation.py: a branch holds one session's conversation.
use nontainer.Prelude.{
  Text, none, ◌++◌, lookup, member, starts_with, refl, true, false, Option, some, [], text_eq_refl,
  ◌≡◌, ◌∙◌, sym, Bool-cases, inl, inr,
}
use nontainer.Values.{Value, text, is_text, is_null, optional, or_else, IsStr}
use nontainer.Planes.{
  Kv, returned, conversation_record_key, conversation_run_prefix, conversation_prefix,
  legacy_conversation_prefix,
}
use nontainer.Planes.Writes.{Clear}
use nontainer.Conversation.IndexData.{Index}
use nontainer.Conversation.{keep_record, run_prefix, read_index, rebind, reclaim}
use nontainer.Conversation.Written.{Written, write-Written, read_index-write}
use nontainer.Conversation.Migrated.{OnePlane, legacy-is_migration, Written-run_kept}

-- The index of a conversation that was bound to a session.
abbrev bound : Index → Text → Value → Index
bound index session forked_from = record index { session = text session; forked_from = forked_from }

-- What a rebind leaves, beside the index that is read: the bodies of the conversation's runs, each under
-- the key of the conversation's plane; the record, on a head of that plane; no legacy plane; and the
-- other planes.
pub record Rebound (index : Index) (kv after : Kv) : Type 0 where
  pub run_kept :
      (rid : Text) (body : Value)
      → member rid index.runs ≡ true
      → lookup (run_prefix index.legacy ++ rid) kv.items ≡ some body
      → is_null body ≡ false
      → lookup (conversation_run_prefix ++ rid) after.items ≡ some body
  pub record_kept :
      index.legacy ≡ false
      → lookup conversation_record_key after.items ≡ lookup conversation_record_key kv.items
  pub bodies_kept :
      index.legacy ≡ false
      → (rid : Text)
      → lookup (conversation_run_prefix ++ rid) after.items
        ≡ lookup (conversation_run_prefix ++ rid) kv.items
  pub legacy_gone :
      index.legacy ≡ true
      → (k : Text) → starts_with legacy_conversation_prefix k ≡ true
      → lookup k after.items ≡ none
  pub others_kept :
      (k : Text)
      → starts_with conversation_prefix k ≡ false
      → starts_with legacy_conversation_prefix k ≡ false
      → lookup k after.items ≡ lookup k kv.items

Written-Rebound :
    (str : Value → Text) (kv after : Kv) (index index' : Index)
    → OnePlane kv
    → read_index str kv ≡ some (some index)
    → index'.runs ≡ index.runs
    → Written index' keep_record [] [] kv after
    → Rebound index kv after
unfolding lookup member
Written-Rebound str kv after index index' one e same w =
    let plane = legacy-is_migration str kv index one e in
    record {
      run_kept = λ rid body m held n.
          Written-run_kept str kv after index index' rid body one e same w m held n;
      record_kept = λ d. w.record_stored ∙ rw (plane ∙ d) refl;
      bodies_kept = λ d rid. w.runs_stored rid ∙ rw (plane ∙ d) refl;
      legacy_gone = λ l k under. w.migrated k under ∙ rw (plane ∙ l) refl;
      others_kept = w.others_kept;
    }

module _ (str : Value → Text) (h : IsStr str) where
  -- A fork that carries a conversation: on a store of which no write fails and which holds one plane of
  -- a conversation, one that does not name the child becomes the child's own, forked from the session
  -- that it named, or from the parent where it named none; its harness and its runs stay. The body of
  -- each run, which is no `None`, is then under the conversation's key of it; on a head of the
  -- conversation's plane the record and every run's key hold what they held, and else the legacy plane is
  -- gone; the keys of the other planes hold what they held.
  pub rebind_bound :
      (child parent : Text) (kv : Kv) (index : Index)
      → Clear kv.faults
      → OnePlane kv
      → read_index str kv ≡ some (some index)
      → is_text child index.session ≡ false
      → (after : Kv) × (rebind str child parent kv ≡ returned true after)
        × (read_index str after
            ≡ some (
                some (record index {
                  session = text child;
                  forked_from = or_else index.session (text parent);
                  legacy = false;
                })))
        × Rebound index kv after
  unfolding rebind
  rebind_bound child parent kv index c one e n =
      let index' = bound index child (or_else index.session (text parent)) in
      let (after, w) = write-Written index' keep_record [] [] kv tt c in
      (
        after,
        rw (e, rebind) (rw n (rw w.returns)),
        read_index-write str index' keep_record [] [] kv after h w,
        Written-Rebound str kv after index index' one e refl w,
      )

  -- A restored conversation that names another session becomes this session's own: forked from
  -- `lineage` where that is given and not empty, and else from the session that it named.
  pub reclaim_bound :
      (session : Text) (lineage : Option Text) (kv : Kv) (index : Index)
      → Clear kv.faults
      → read_index str kv ≡ some (some index)
      → is_null index.session ≡ false
      → is_text session index.session ≡ false
      → (after : Kv) × (reclaim str session lineage kv ≡ returned true after)
        × (read_index str after
            ≡ some (
                some (record index {
                  session = text session;
                  forked_from = or_else (optional lineage) index.session;
                  legacy = false;
                })))
  unfolding reclaim
  reclaim_bound session lineage kv index c e n m =
      let index' = bound index session (or_else (optional lineage) index.session) in
      let (after, w) = write-Written index' keep_record [] [] kv tt c in
      (
        after,
        rw (e, reclaim) (rw (n, m) (rw w.returns)),
        read_index-write str index' keep_record [] [] kv after h w,
      )

  -- Rebinding twice writes once: the second time, nothing is written and `False` is returned.
  pub rebind_twice :
      (child parent : Text) (kv after : Kv) (index : Index)
      → Clear kv.faults
      → OnePlane kv
      → read_index str kv ≡ some (some index)
      → rebind str child parent kv ≡ returned true after
      → rebind str child parent after ≡ returned false after
  unfolding rebind
  rebind_twice child parent kv after index c one e r =
      elim (Bool-cases (is_text child index.session)) [
        | inl same ↦
            let idle : rebind str child parent kv ≡ returned false kv = rw (e, rebind) (rw same) in
            cc (sym r ∙ idle)
        | inr n ↦
            let (after', r', read, _) = rebind_bound child parent kv index c one e n in
            let same : after' ≡ after = cc (sym r' ∙ r) in
            rw (rw same at read, rebind) (rw (text_eq_refl child))
      ]
