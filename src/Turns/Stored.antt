-- ===== src/Turns/Stored.antt =====
-- What the end of a turn leaves in the store and in the inbox (nontainer/turns.py).
use nontainer.Prelude.{
  Text, Bool, true, false, Option, none, some, [], ◌++◌, if◌then◌else◌, lookup, ◌≡◌, ◌∙◌, refl, ap,
  arith, Bool-cases, Option-cases, inl, inr,
}
use nontainer.Values.{Value}
use nontainer.Planes.{Kv, Ran, returned, raised}
use nontainer.Planes.Writes.{Once}
use nontainer.Conversation.IndexData.{Index}
use nontainer.Conversation.{GivenRecord, read_index, write}
use nontainer.Conversation.Applied.{apply_raised}
use nontainer.Inbox.{Inbox, requeue}
use nontainer.Turns.State.{RunStatus, run_status, Turn, Session, Workspace, Fault, err}
use nontainer.Turns.Ending.{
  harness_of, disagrees, Stored, stored, store_raised, wrote, store_named, store, stores, on_inbox,
  finished, after_store, end_begun, end_turn,
}

-- Where storing raised, every key holds what it held.
abbrev Unchanged : Kv → Stored → Type 0
Unchanged kv (stored after) = Unit
Unchanged kv (store_raised fault after) = (k : Text) → lookup k after.items ≡ lookup k kv.items

wrote-Unchanged :
    (kv : Kv) (r : Ran (Unit {0}))
    → ((after : Kv) → r ≡ raised after → (k : Text) → lookup k after.items ≡ lookup k kv.items)
    → Unchanged kv (wrote r)
wrote-Unchanged kv (returned u after) h = tt
wrote-Unchanged kv (raised after) h = h after refl

module _ (ws : Workspace) (str : Value → Text) (turn : Turn) (body : Value) (given : GivenRecord)
    (kv : Kv) (once : Once kv.faults) where
  store_named-Unchanged :
      (run_id : Text) (index : Option Index)
      → Unchanged kv (store_named ws str turn run_id body given kv index)
  unfolding write
  store_named-Unchanged run_id index = elim (Option-cases (harness_of turn.harness index)) [
    | inl n ↦ rw (n, Unchanged) (λ k. refl)
    | inr (harness, n) ↦ elim (Bool-cases (disagrees harness index)) [
      | inl d ↦ rw (n, Unchanged) (rw (d, Unchanged) (λ k. refl))
      | inr d ↦
          rw (n, Unchanged)
            (rw (d, Unchanged)
              (wrote-Unchanged kv _ (λ after e k. apply_raised _ kv after once e k)))
    ]
  ]

  store-Unchanged : Unchanged kv (store ws str turn body given kv)
  unfolding store
  store-Unchanged = elim (Option-cases turn.run_id) [
    | inl n ↦ simp (n, store) (λ k. refl)
    | inr (run_id, n) ↦ elim (Option-cases (read_index str kv)) [
      | inl r ↦ simp (n, r, store) (λ k. refl)
      | inr (index, r) ↦ simp (n, r, store) (store_named-Unchanged run_id index)
    ]
  ]

stored_once :
    (kv after : Kv) (r : Stored) (fault : Fault)
    → Unchanged kv r
    → r ≡ store_raised fault after
    → (k : Text) → lookup k after.items ≡ lookup k kv.items
stored_once kv after (stored other) fault u e = absurd (cc)
stored_once kv after (store_raised f other) fault u e =
    let same : other ≡ after = cc in λ k. rw (← same) (u k)

requeued :
    (ib : Inbox)
    → ((requeue ib).1.pending ≡ ib.delivered ++ ib.pending) × ((requeue ib).1.delivered ≡ [])
unfolding requeue
requeued ib = (ground arith, ground arith)

pub chosen : {t : Bool} (a b : Stored) → t ≡ true → (if t then a else b) ≡ a
chosen a b h = rw h

pub begun_end :
    (ws : Workspace) (str : Value → Text) (word : Text) (status : RunStatus) (body : Value)
    (given : GivenRecord) (message : Option Text) (s : Session)
    → run_status word ≡ some status
    → s.turn.status ≡ none
    → s.turn.ending ≡ false
    → end_turn ws str word body given message s
      ≡ after_store ws status message s
          (if stores body given then store ws str s.turn body given s.kv else stored s.kv)
unfolding end_turn end_begun
begun_end ws str word status body given message s w o e = rw (w, end_turn) (simp (o, e))

-- Where storing the run raises, on a store that fails one write at most, the end raises that error,
-- lands no commit, leaves every key holding what it held, and puts the delivered notes back at the
-- front of the queue.
pub end_turn_unstored :
    (ws : Workspace) (str : Value → Text) (word : Text) (status : RunStatus) (body : Value)
    (given : GivenRecord) (message : Option Text) (s : Session) (ib : Inbox) (fault : Fault)
    (kv : Kv)
    → run_status word ≡ some status
    → s.turn.status ≡ none
    → s.turn.ending ≡ false
    → s.inbox ≡ some ib
    → Once s.kv.faults
    → stores body given ≡ true
    → store ws str s.turn body given s.kv ≡ store_raised fault kv
    → (after : Session) × (end_turn ws str word body given message s ≡ (err fault, after))
      × (after.commits ≡ s.commits)
      × ((k : Text) → lookup k after.kv.items ≡ lookup k s.kv.items)
      × (ib' : Inbox) × (after.inbox ≡ some ib')
      × (ib'.pending ≡ ib.delivered ++ ib.pending)
      × (ib'.delivered ≡ [])
end_turn_unstored ws str word status body given message s ib fault kv w o e i once st r =
    let after =
      finished status s.turn.commit
        (record s { kv = kv; inbox = on_inbox (λ ib. (requeue ib).1) s.inbox }) in
    (
      after,
      begun_end ws str word status body given message s w o e
          ∙ ap (after_store ws status message s) (chosen _ _ st ∙ r),
      refl,
      λ k. stored_once s.kv kv _ fault (store-Unchanged ws str s.turn body given s.kv once) r k,
      (requeue ib).1,
      simp i,
      (requeued ib).0,
      (requeued ib).1,
    )
