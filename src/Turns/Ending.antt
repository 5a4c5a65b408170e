-- ===== src/Turns/Ending.antt =====
-- Ending a turn in nontainer/turns.py: `_store` and `end`.
use nontainer.Prelude.{
  Text, ℕ, ◌==◌, Bool, true, false, List, Option, none, some, [], ◌∷◌, ◌++◌, if◌then◌else◌, not,
  ◌&&◌, ◌||◌, is_some, is_empty, member, text_eq,
}
use nontainer.Values.{Value, null, text, is_null}
use nontainer.Planes.{Kv, Ran, returned, raised}
use nontainer.Conversation.IndexData.{Index}
use nontainer.Conversation.{GivenRecord, keep_record, give, read_index, write}
use nontainer.Inbox.{Inbox, requeue, settle}
use nontainer.Turns.State.{
  RunStatus, run_status, Turn, Stamp, Session, Workspace, Fault, value_error, runtime_error,
  not_supported, read_raised, write_raised, commit_raised, Result, ok, err,
}

-- `self.harness or (index.harness if index is not None else None)`
unfoldable pub harness_of : Option Text → Option Index → Option Text
harness_of (some (c ∷ t)) index = some (c ∷ t)
harness_of own none = none
harness_of own (some index) = some index.harness

abbrev pub disagrees : Text → Option Index → Bool
disagrees harness none = false
disagrees harness (some index) = not (text_eq index.harness harness)

unfoldable pub add_run : Text → List Text → List Text
add_run run_id runs = if member run_id runs then runs else runs ++ run_id ∷ []

-- The index with the run in it: that which was read, or a new one.
unfoldable pub joined : Text → Text → Text → Option Index → Index
joined session harness run_id none = record {
  harness = harness;
  session = text session;
  runs = add_run run_id [];
  forked_from = null;
  legacy = false;
}
joined session harness run_id (some index) = record index {
  harness = harness;
  session = text session;
  runs = add_run run_id index.runs;
}

pub data Stored : Type 0 where
  stored : Kv → Stored
  store_raised : Fault → Kv → Stored

abbrev pub wrote : Ran (Unit {0}) → Stored
wrote (returned u kv) = stored kv
wrote (raised kv) = store_raised write_raised kv

module _ (ws : Workspace) (str : Value → Text) where
  abbrev pub store_named : Turn → Text → Value → GivenRecord → Kv → Option Index → Stored
  store_named turn run_id body given kv index = elim (harness_of turn.harness index) [
    | none ↦ store_raised value_error kv
    | some harness ↦
        if disagrees harness index
        then store_raised not_supported kv
        else wrote (
            write (joined ws.session harness run_id index) given
              (if is_null body then [] else (run_id, body) ∷ []) [] kv)
  ]

  -- `_store`, for a body that is `None` where only the record is given.
  unfoldable pub store : Turn → Value → GivenRecord → Kv → Stored
  store turn body given kv = elim turn.run_id [
    | none ↦ store_raised value_error kv
    | some run_id ↦ elim (read_index str kv) [
      | none ↦ store_raised read_raised kv
      | some index ↦ store_named turn run_id body given kv index
    ]
  ]

-- `body is not None or record is not _KEEP`
abbrev pub stores : Value → GivenRecord → Bool
stores body keep_record = not (is_null body)
stores body (give v) = true

abbrev pub released : Turn → Option ℕ → Option ℕ
released turn none = none
released turn (some id) = if id == turn.id then none else some id

-- The `finally` of an end, where it landed the commit.
abbrev pub finished : RunStatus → Option Text → Session → Session
finished status commit s = record s {
  turn = record s.turn { status = some status; commit = commit; ending = true };
  current = released s.turn s.current;
}

abbrev pub stamp_of : RunStatus → Option Text → Turn → Stamp
stamp_of status message turn = record {
  run = elim turn.run_id [ none ↦ none | some run_id ↦ some (run_id, status) ];
  message = elim message [ none ↦ none | some m ↦ if is_empty m then none else some m ];
}

abbrev pub on_inbox : (Inbox → Inbox) → Option Inbox → Option Inbox
on_inbox f none = none
on_inbox f (some ib) = some (f ib)

module _ (ws : Workspace) where
  -- From `settle` on: the commit, where there is one to land.
  unfoldable pub land : RunStatus → Option Text → Session → Result (Option Text) × Session
  land status message s =
      let s' = record s { inbox = on_inbox settle s.inbox } in
      let stamp = stamp_of status message s.turn in
      if not ws.frozen && (ws.versioned && ws.uncommitted s.kv s.commits)
      then elim (ws.commit stamp s.kv) [
        | none ↦ (err commit_raised, finished status s.turn.commit s')
        | some id ↦
            (ok (some id), finished status (some id) (record s' { commits = stamp ∷ s.commits }))
      ]
      else (ok s.turn.commit, finished status s.turn.commit s')

  abbrev pub after_store :
      RunStatus → Option Text → Session → Stored → Result (Option Text) × Session
  after_store status message s (stored kv) = land status message (record s { kv = kv })
  after_store status message s (store_raised fault kv) = (
    err fault,
    finished status s.turn.commit
        (record s { kv = kv; inbox = on_inbox (λ ib. (requeue ib).1) s.inbox }),
  )

module _ (ws : Workspace) (str : Value → Text) where
  unfoldable pub end_begun :
      RunStatus → Value → GivenRecord → Option Text → Session → Result (Option Text) × Session
  end_begun status body given message s =
      after_store ws status message s
        (if stores body given then store ws str s.turn body given s.kv else stored s.kv)

  -- `Turn.end`
  unfoldable pub end_turn :
      Text → Value → GivenRecord → Option Text → Session → Result (Option Text) × Session
  end_turn status body given message s = elim (run_status status) [
    | none ↦ (err value_error, s)
    | some status' ↦
        if is_some s.turn.status || s.turn.ending
        then (err runtime_error, s)
        else end_begun status' body given message s
  ]
