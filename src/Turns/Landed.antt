-- ===== src/Turns/Landed.antt =====
-- The end of a turn that stores its run and lands its commit (nontainer/turns.py).
use nontainer.Prelude.{
  Text, ℕ, true, false, List, Option, none, some, [], ◌∷◌, ◌++◌, lookup, member, member-append,
  text_eq_refl, ◌≡◌, ◌∙◌, refl, ap, arith,
}
use nontainer.Values.{Value, text, is_null, IsStr}
use nontainer.Planes.{Kv, returned, conversation_run_prefix}
use nontainer.Planes.Writes.{Clear}
use nontainer.Conversation.IndexData.{Index}
use nontainer.Conversation.{GivenRecord, keep_record, give, read_index, write}
use nontainer.Conversation.Written.{write-Written, read_index-write}
use nontainer.Inbox.{Inbox, settle}
use nontainer.Turns.State.{RunStatus, run_status, Turn, Stamp, Session, Workspace, ok}
use nontainer.Turns.Ending.{
  harness_of, disagrees, add_run, joined, stored, store_named, store, stores, stamp_of, finished,
  land, after_store, end_turn,
}
use nontainer.Turns.Stored.{chosen, begun_end}
use nontainer.Conversation.Carried.{first_held}
use nontainer.Conversation.Parts.{legacy_run, is_migration}
use nontainer.Prelude.{lookup-nil}

member-add_run : (run_id : Text) (runs : List Text) → member run_id (add_run run_id runs) ≡ true
unfolding add_run member
member-add_run run_id runs =
    ground (arith, member-append run_id runs (run_id ∷ []), text_eq_refl run_id)

add_run_keeps :
    (run_id j : Text) (runs : List Text)
    → member j runs ≡ true
    → member j (add_run run_id runs) ≡ true
unfolding add_run
add_run_keeps run_id j runs h = ground (arith, member-append j runs (run_id ∷ []))

-- The index that an end leaves is read with the run in it, and with every run it had.
abbrev pub after_index : Workspace → Text → Text → Index → Index
after_index ws harness run_id index = record index {
  harness = harness;
  session = text ws.session;
  runs = add_run run_id index.runs;
  legacy = false;
}

stores-body : (body : Value) (given : GivenRecord) → is_null body ≡ false → stores body given ≡ true
stores-body body keep_record h = rw h
stores-body body (give v) h = refl

lookup_one : (k : Text) (v : Value) → lookup k ((k, v) ∷ []) ≡ some v
unfolding lookup
lookup_one k v = rw (text_eq_refl k)

module _ (ws : Workspace) (str : Value → Text) where
  store_written :
      (turn : Turn) (run_id harness : Text) (body : Value) (given : GivenRecord) (kv after : Kv)
      (index : Index)
      → turn.run_id ≡ some run_id
      → is_null body ≡ false
      → read_index str kv ≡ some (some index)
      → harness_of turn.harness (some index) ≡ some harness
      → disagrees harness (some index) ≡ false
      → write (joined ws.session harness run_id (some index)) given ((run_id, body) ∷ []) [] kv
        ≡ returned tt after
      → store ws str turn body given kv ≡ stored after
  unfolding store
  store_written turn run_id harness body given kv after index n b r hn d w =
      simp (n, r, store) (rw (hn, store_named) (rw d (rw b (rw w))))

  land_landed :
      (status : RunStatus) (message : Option Text) (commit : Text) (s : Session) (ib : Inbox)
      → s.inbox ≡ some ib
      → ws.frozen ≡ false
      → ws.versioned ≡ true
      → ws.uncommitted s.kv s.commits ≡ true
      → ws.commit (stamp_of status message s.turn) s.kv ≡ some commit
      → land ws status message s ≡ (
        ok (some commit),
        finished status (some commit) (record s {
          inbox = some (settle ib);
          commits = stamp_of status message s.turn ∷ s.commits;
        }),
      )
  unfolding land
  land_landed status message commit s ib i f v u c = simp (i, f, v, u, c)

-- What an end that landed its commit leaves of the session's commits and notes: one more commit,
-- stamped with the run, how it ended, and the message where there is one; no delivered note, and the
-- pending ones.
pub record Landed (run_id : Text) (status : RunStatus) (message : Option Text) (ib : Inbox)
    (before : List Stamp) (after : Session) : Type 0 where
  pub stamp : Stamp
  pub commits : after.commits ≡ stamp ∷ before
  pub run : stamp.run ≡ some (run_id, status)
  pub message_none : message ≡ none → stamp.message ≡ none
  pub message_some : (c : ℕ) (m : Text) → message ≡ some (c ∷ m) → stamp.message ≡ some (c ∷ m)
  pub inbox : Inbox
  pub left : after.inbox ≡ some inbox
  pub pending : inbox.pending ≡ ib.pending
  pub delivered : inbox.delivered ≡ []

stamp-run :
    (status : RunStatus) (message : Option Text) (turn : Turn) (run_id : Text)
    → turn.run_id ≡ some run_id
    → (stamp_of status message turn).run ≡ some (run_id, status)
stamp-run status message turn run_id n = rw (n) refl

landed :
    (run_id commit : Text) (status : RunStatus) (message : Option Text) (s : Session) (ib : Inbox)
    → s.turn.run_id ≡ some run_id
    → Landed run_id status message ib s.commits (
        finished status (some commit) (record s {
          inbox = some (settle ib);
          commits = stamp_of status message s.turn ∷ s.commits;
        }))
unfolding settle
landed run_id commit status message s ib n = record {
  stamp = stamp_of status message s.turn;
  commits = refl;
  run = stamp-run status message s.turn run_id n;
  message_none = λ e. rw (e) refl;
  message_some = λ c m e. rw (e) refl;
  inbox = settle ib;
  left = refl;
  pending = refl;
  delivered = refl;
}

-- An end with a body, of a turn whose run is named and whose harness wrote the conversation, on a
-- store of which no write fails and a workspace that takes commits and lands them: one commit is
-- landed, stamped with the run, how it ended and the message, if there is one; the run's body is stored, and the index that is
-- read holds the run and every run it held before, for this session; the delivered notes are
-- forgotten, and those pending stay.
pub end_turn_stored :
    (ws : Workspace) (str : Value → Text) (word : Text) (status : RunStatus) (body : Value)
    (given : GivenRecord) (message : Option Text) (s : Session) (ib : Inbox)
    (run_id harness commit : Text) (index : Index)
    → IsStr str
    → run_status word ≡ some status
    → s.turn.status ≡ none
    → s.turn.ending ≡ false
    → s.inbox ≡ some ib
    → s.turn.run_id ≡ some run_id
    → is_null body ≡ false
    → read_index str s.kv ≡ some (some index)
    → harness_of s.turn.harness (some index) ≡ some harness
    → disagrees harness (some index) ≡ false
    → Clear s.kv.faults
    → ws.frozen ≡ false
    → ws.versioned ≡ true
    → ((kv : Kv) → ws.uncommitted kv s.commits ≡ true)
    → ((stamp : Stamp) (kv : Kv)
        → stamp.run ≡ some (run_id, status)
        → ws.commit stamp kv ≡ some commit)
    → (after : Session) × (end_turn ws str word body given message s ≡ (ok (some commit), after))
      × Landed run_id status message ib s.commits after
      × (lookup (conversation_run_prefix ++ run_id) after.kv.items ≡ some body)
      × (read_index str after.kv ≡ some (some (after_index ws harness run_id index)))
      × (member run_id (after_index ws harness run_id index).runs ≡ true)
      × ((j : Text)
          → member j index.runs ≡ true
          → member j (after_index ws harness run_id index).runs ≡ true)
unfolding lookup member joined add_run
end_turn_stored ws str word status body given message s ib run_id harness commit index h w o e i n b
      r hn d c f v u cm =
    let index' = joined ws.session harness run_id (some index) in
    let (kv, wr) =
      write-Written index' given ((run_id, body) ∷ []) [] s.kv (lookup-nil run_id, tt) c in
    let st =
      store_written ws str s.turn run_id harness body given s.kv kv index n b r hn d wr.returns in
    let ss = record s { kv = kv } in
    let after = finished status (some commit) (record ss {
      inbox = some (settle ib);
      commits = stamp_of status message s.turn ∷ s.commits;
    }) in
    (
      after,
      begun_end ws str word status body given message s w o e
          ∙ (ap (after_store ws status message s) (chosen _ _ (stores-body body given b) ∙ st)
              ∙ land_landed ws str status message commit ss ib i f v (u kv) (
                  cm (stamp_of status message s.turn) kv
                    (stamp-run status message s.turn run_id n))),
      landed run_id commit status message ss ib n,
      wr.runs_stored run_id
          ∙ ap
              (λ o. first_held o (
                first_held (legacy_run (is_migration s.kv) [] index'.runs s.kv run_id)
                  (lookup (conversation_run_prefix ++ run_id) s.kv.items)))
              (lookup_one run_id body),
      read_index-write str index' given ((run_id, body) ∷ []) [] s.kv kv h wr,
      member-add_run run_id index.runs,
      λ j m. add_run_keeps run_id j index.runs m,
    )
