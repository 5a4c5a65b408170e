-- ===== src/Turns/Ended.antt =====
-- A turn ends once, and its slot is free from then on, whatever the end met (nontainer/turns.py).
use nontainer.Prelude.{
  Text, true, false, Option, none, some, if◌then◌else◌, ◌≡◌, ◌∙◌, refl, arith, ==_iff,
}
use nontainer.Values.{Value}
use nontainer.Conversation.{GivenRecord}
use nontainer.Turns.State.{RunStatus, run_status, Turn, Session, Workspace, runtime_error, err}
use nontainer.Turns.Ending.{
  Stored, stored, store_raised, stores, store, released, land, after_store, end_begun, end_turn,
}

-- The turn has ended, its slot is free, and no other turn was touched.
pub record IsEnded (how : RunStatus) (before after : Session) : Type 0 where
  pub status : after.turn.status ≡ some how
  pub ending : after.turn.ending ≡ true
  pub slot : after.current ≡ released before.turn before.current
  pub run_id : after.turn.run_id ≡ before.turn.run_id

module _ (ws : Workspace) (status : RunStatus) (message : Option Text) where
  land-IsEnded : (s : Session) → IsEnded status s (land ws status message s).1
  unfolding land
  land-IsEnded s = ground arith

  after_store-IsEnded :
      (s : Session) (o : Stored) → IsEnded status s (after_store ws status message s o).1
  after_store-IsEnded s (stored kv) =
      let e = land-IsEnded (record s { kv = kv }) in
      record { status = e.status; ending = e.ending; slot = e.slot; run_id = e.run_id }
  after_store-IsEnded s (store_raised fault kv) = record {
    status = refl;
    ending = refl;
    slot = refl;
    run_id = refl;
  }

  end_begun-IsEnded :
      (str : Value → Text) (body : Value) (given : GivenRecord) (s : Session)
      → IsEnded status s (end_begun ws str status body given message s).1
  unfolding end_begun
  end_begun-IsEnded str body given s =
      after_store-IsEnded s
        (if stores body given then store ws str s.turn body given s.kv else stored s.kv)

released_own : (turn : Turn) → released turn (some turn.id) ≡ none
released_own turn = ground (arith, ==_iff turn.id turn.id)

-- Whatever an end of an open turn meets, a store that fails or a commit that does, the turn has
-- ended as it was told to, its slot is free, so that another turn can begin, and every later end
-- is refused and changes nothing.
pub end_turn_once :
    (ws : Workspace) (str : Value → Text) (word : Text) (status : RunStatus) (body : Value)
    (given : GivenRecord) (message : Option Text) (s : Session)
    → run_status word ≡ some status
    → s.turn.status ≡ none
    → s.turn.ending ≡ false
    → s.current ≡ some s.turn.id
    → (after : Session) × ((end_turn ws str word body given message s).1 ≡ after)
      × (after.turn.status ≡ some status)
      × (after.current ≡ none)
      × ((word' : Text) (status' : RunStatus) (body' : Value) (given' : GivenRecord)
            (message' : Option Text)
          → run_status word' ≡ some status'
          → end_turn ws str word' body' given' message' after ≡ (err runtime_error, after))
unfolding end_turn
end_turn_once ws str word status body given message s w o e c =
    let after = (end_begun ws str status body given message s).1 in
    let ended = end_begun-IsEnded ws status message str body given s in
    (
      after,
      rw (w, end_turn) (rw (o, e)),
      ended.status,
      ended.slot ∙ rw c (released_own s.turn),
      λ word' status' body' given' message' w'. rw (w', end_turn) (rw ended.status),
    )
