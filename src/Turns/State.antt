-- ===== src/Turns/State.antt =====
-- The state around a turn, and beginning and binding one, in nontainer/turns.py: the classes `Turn` and `Turns`.
-- A workspace's state around its turns is a `Session`; what it takes of the workspace is the record
-- `Workspace`, whose commit is the provider's.
use nontainer.Prelude.{
  Text, concat, ℕ, suc, Bool, true, false, List, Option, none, some, if◌then◌else◌, member, text_eq,
}
use nontainer.Values.{Value}
use nontainer.Planes.{Kv}
use nontainer.Conversation.IndexData.{Index}
use nontainer.Conversation.{read_index}
use nontainer.Inbox.{Inbox}

pub data RunStatus : Type 0 where
  completed interrupted failed : RunStatus
  cancelled : RunStatus

-- `RUN_STATUSES`
unfoldable pub run_status : Text → Option RunStatus
run_status t =
    if text_eq t (concat "completed")
    then some completed
    else if text_eq t (concat "cancelled")
    then some cancelled
    else if text_eq t (concat "interrupted")
    then some interrupted
    else if text_eq t (concat "failed")
    then some failed
    else none

-- How a turn is told apart from others, and its fields.
pub record Turn : Type 0 where
  pub id : ℕ
  pub run_id : Option Text
  pub resume : Bool
  pub harness : Option Text
  pub status : Option RunStatus
  pub commit : Option Text
  pub ending : Bool

-- What a commit is stamped with, beside `"tool": "turn"`.
pub record Stamp : Type 0 where
  pub run : Option (Text × RunStatus)
  pub message : Option Text

-- `current` is the open turn's id, and `commits` are those that turns landed, the last one first.
pub record Session : Type 0 where
  pub turn : Turn
  pub inbox : Option Inbox
  pub kv : Kv
  pub current : Option ℕ
  pub begun : ℕ
  pub commits : List Stamp

pub record Workspace : Type 0 where
  pub session : Text
  pub is_closed : Bool
  pub frozen : Bool
  pub versioned : Bool
  pub uncommitted : Kv → List Stamp → Bool
  pub commit : Stamp → Kv → Option Text

pub data Fault : Type 0 where
  value_error runtime_error not_supported turn_in_progress closed : Fault
  read_raised write_raised commit_raised : Fault

pub data Result (A : Type 0) : Type 0 where
  ok : A → Result A
  err : Fault → Result A

unfoldable pub bind : Text → Session → Result (Unit {0}) × Session
bind run_id s = elim s.turn.run_id [
  | none ↦ (ok tt, record s { turn = record s.turn { run_id = some run_id } })
  | some held ↦
      if text_eq held run_id
      then (ok tt, record s { turn = record s.turn { run_id = some run_id } })
      else (err value_error, s)
]

-- `run_id not in index.runs`, where there may be no index.
abbrev holds_run : Text → Option Index → Bool
holds_run run_id none = false
holds_run run_id (some index) = member run_id index.runs

module _ (ws : Workspace) (str : Value → Text) where
  -- What resuming a run asks of the stored conversation.
  unfoldable pub check_resume : Bool → Option Text → Kv → Result (Unit {0})
  check_resume false run_id kv = ok tt
  check_resume true none kv = err value_error
  check_resume true (some run_id) kv = elim (read_index str kv) [
    | none ↦ err read_raised
    | some index ↦ if holds_run run_id index then ok tt else err value_error
  ]

  abbrev open_turn : Option Text → Bool → Option Inbox → Option Text → Session → Result ℕ × Session
  open_turn run_id resume inbox harness s = elim s.current [
    | some other ↦ (err turn_in_progress, s)
    | none ↦
        let k = suc s.begun in
        let turn : Turn = record {
          id = k;
          run_id = run_id;
          resume = resume;
          harness = harness;
          status = none;
          commit = none;
          ending = false;
        } in
        (ok k, record s { turn = turn; inbox = inbox; current = some k; begun = k })
  ]

  -- `Turns.begin`
  unfoldable pub begin :
      Option Text → Bool → Option Inbox → Option Text → Session → Result ℕ × Session
  begin run_id resume inbox harness s =
      if ws.is_closed then (err closed, s) else elim (check_resume resume run_id s.kv) [
        | err fault ↦ (err fault, s)
        | ok u ↦ open_turn run_id resume inbox harness s
      ]
