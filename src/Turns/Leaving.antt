-- ===== src/Turns/Leaving.antt =====
-- Leaving a turn's block in nontainer/turns.py: `__exit__`, and `complete` and `interrupt`.
use nontainer.Prelude.{Text, concat, Option, none, some, ◌||◌, is_some, if◌then◌else◌}
use nontainer.Values.{Value, null}
use nontainer.Conversation.{GivenRecord, keep_record}
use nontainer.Turns.State.{Session, Workspace, Result, ok, err}
use nontainer.Turns.Ending.{end_turn}

-- How a block is left: normally, by an exception that is not an `Exception`, or by an `Exception`,
-- with its type's name and itself as text.
pub data Left : Type 0 where
  normally : Left
  cancelling : Left
  failing : Text → Left

module _ (ws : Workspace) (str : Value → Text) where
  unfoldable pub complete : Value → GivenRecord → Session → Result (Option Text) × Session
  complete body given s = end_turn ws str (concat "completed") body given none s

  unfoldable pub interrupt : Text → Value → GivenRecord → Session → Result (Option Text) × Session
  interrupt message body given s =
      end_turn ws str (concat "interrupted") body given (some message) s

  -- What an end that fails on the way out does: it raises where the block itself did not.
  abbrev passed_over : Result (Option Text) × Session → Result (Unit {0}) × Session
  passed_over (r, s) = (ok tt, s)

  abbrev passed_on : Result (Option Text) × Session → Result (Unit {0}) × Session
  passed_on (ok commit, s) = (ok tt, s)
  passed_on (err fault, s) = (err fault, s)

  abbrev leave_open : Left → Session → Result (Unit {0}) × Session
  leave_open normally s = passed_on (end_turn ws str (concat "completed") null keep_record none s)
  leave_open cancelling s =
      passed_over
        (end_turn ws str (concat "cancelled") null keep_record (some (concat "cancelled")) s)
  leave_open (failing message) s =
      passed_over (end_turn ws str (concat "failed") null keep_record (some message) s)

  -- `__exit__`, which lets the block's own exception go on.
  unfoldable pub exit : Left → Session → Result (Unit {0}) × Session
  exit left s = if is_some s.turn.status || s.turn.ending then (ok tt, s) else leave_open left s
