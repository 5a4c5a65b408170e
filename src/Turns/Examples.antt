-- ===== src/Turns/Examples.antt =====
-- The theorems on nontainer/turns.py at small sessions.
use nontainer.Prelude.{
  Text, concat, true, false, List, Option, none, some, [], ◌∷◌, ◌++◌, lookup, member, map, text_eq,
  ◌≡◌, refl,
}
use nontainer.Values.{Value, number}
use nontainer.Planes.{conversation_run_prefix}
use nontainer.Conversation.{GivenRecord, keep_record, read_index}
use nontainer.Conversation.Examples.{str, str-IsStr, legacy_head, legacy_index, read_legacy}
use nontainer.Inbox.Examples.{one, read, said, short}
use nontainer.Inbox.Decimal.{ascii_digit, ascii_digit-IsDigits}
use nontainer.Inbox.Render as Rendering
use nontainer.Inbox.Render.{split}
use nontainer.Inbox.Valid.{IsValid, Reach-IsValid, start, next, put_one}
use nontainer.Inbox.{
  announce, heard, Inbox, Awaited, Outcome, create, put, mint, drain, restore, render,
}
use nontainer.Turns.Delivery.{
  collect, collect_from, deliver, stopped, adeliver, attach, attach_notes, announce_async,
}
use nontainer.Turns.Loop.{Minting, source_of, given}
use nontainer.Turns.Collected.{Collected, collect-Collected}
use nontainer.Turns.Delivered.{
  PutBack, deliver_unframed, adeliver_cancelled, Handing, split-deliver,
}
use nontainer.Turns.State.{
  RunStatus, run_status, completed, Turn, Session, Workspace, value_error, runtime_error, Result,
  ok, err,
}
use nontainer.Turns.Ending.{harness_of, store, store_raised, end_turn}
use nontainer.Turns.Ended.{end_turn_once}
use nontainer.Turns.Stored.{end_turn_unstored}
use nontainer.Turns.Landed.{Landed, end_turn_stored, after_index}

-- One queued note, an answer that arrives, and a source that raises after it minted one.
abbrev sources : List Minting
sources =
    record { words = said "done" ∷ []; raises = false }
    ∷ record { words = said "late" ∷ []; raises = true }
    ∷ []

one-IsValid : IsValid one
one-IsValid = Reach-IsValid none none (next start (put_one (said "stop")))

collect-Collected_example : Collected sources one (collect (map source_of sources) one)
collect-Collected_example = collect-Collected sources one one-IsValid

-- An inbox whose framing raises, and one whose callback is cancelled while it is awaited.
abbrev unframed : Inbox
unframed = (put (said "stop") (create (some (λ note. none)) none)).1

unframed-IsValid : IsValid unframed
unframed-IsValid = Reach-IsValid (some (λ note. none)) none (next start (put_one (said "stop")))

unframed-none :
    render (collect (map source_of []) unframed).0 (collect (map source_of []) unframed).1 ≡ none
unfolding collect collect_from drain put mint Rendering.render
unframed-none = refl

deliver_unframed_example :
    (after : Inbox) × (deliver (map source_of []) (concat "ok") unframed ≡ (concat "ok", [], after))
    × PutBack [] unframed after
deliver_unframed_example = deliver_unframed [] (concat "ok") unframed unframed-IsValid unframed-none

abbrev awaiting : Inbox
awaiting =
    (put (said "stop") (create short (some (λ notes. Outcome.awaitable Awaited.cancelled)))).1

awaiting-IsValid : IsValid awaiting
awaiting-IsValid = Reach-IsValid _ _ (next start (put_one (said "stop")))

abbrev given_back : Inbox
given_back = restore (collect (map source_of []) awaiting).0 (collect (map source_of []) awaiting).1

awaiting_stops : adeliver (map source_of []) (concat "ok") awaiting ≡ stopped given_back
unfolding adeliver attach attach_notes announce_async collect collect_from drain put mint
    Rendering.render announce heard
awaiting_stops = refl

adeliver_cancelled_example : PutBack [] awaiting given_back
adeliver_cancelled_example =
    adeliver_cancelled [] (concat "ok") awaiting awaiting-IsValid given_back awaiting_stops

split-deliver_example :
    Handing ascii_digit
      (concat "ok")
      (one.pending ++ given sources one.minted)
      one.frame
      (deliver (map source_of sources) (concat "ok") one).0
      (deliver (map source_of sources) (concat "ok") one).1
split-deliver_example =
    split-deliver ascii_digit ascii_digit-IsDigits sources (concat "ok") one one-IsValid

abbrev workspace : Workspace
workspace = record {
  session = concat "a";
  is_closed = false;
  frozen = false;
  versioned = true;
  uncommitted = λ kv commits. true;
  commit = λ stamp kv. some (concat "c1");
}

abbrev turn : Turn
turn = record {
  id = 1;
  run_id = some (concat "r2");
  resume = false;
  harness = none;
  status = none;
  commit = none;
  ending = false;
}

abbrev session : Session
session = record {
  turn = turn;
  inbox = some read;
  kv = legacy_head;
  current = some 1;
  begun = 1;
  commits = [];
}

is_completed : run_status (concat "completed") ≡ some completed
unfolding run_status text_eq
is_completed = refl

abbrev ended : Result (Option Text) × Session
ended = end_turn workspace str (concat "completed") (number 3) keep_record none session

end_turn_once_example :
    (after : Session) × (ended.1 ≡ after)
    × (after.turn.status ≡ some completed)
    × (after.current ≡ none)
    × ((word' : Text) (status' : RunStatus) (body' : Value) (given' : GivenRecord)
          (message' : Option Text)
        → run_status word' ≡ some status'
        → end_turn workspace str word' body' given' message' after ≡ (err runtime_error, after))
end_turn_once_example =
    end_turn_once workspace str (concat "completed") completed (number 3) keep_record none session
      is_completed refl refl refl

end_turn_stored_example :
    (after : Session) × (ended ≡ (ok (some (concat "c1")), after))
    × Landed (concat "r2") completed none read [] after
    × (lookup (conversation_run_prefix ++ concat "r2") after.kv.items ≡ some (number 3))
    × (read_index str after.kv
        ≡ some (some (after_index workspace (concat "agno") (concat "r2") legacy_index)))
    × (member (concat "r2") (after_index workspace (concat "agno") (concat "r2") legacy_index).runs
        ≡ true)
    × ((j : Text)
        → member j (concat "r1" ∷ []) ≡ true
        → member j (after_index workspace (concat "agno") (concat "r2") legacy_index).runs ≡ true)
unfolding harness_of text_eq
end_turn_stored_example =
    end_turn_stored workspace str (concat "completed") completed (number 3) keep_record none session
      read (concat "r2") (concat "agno") (concat "c1") legacy_index str-IsStr is_completed refl refl
      refl refl refl read_legacy refl refl tt refl refl (λ kv. refl) (λ stamp kv e. refl)

-- A turn whose run has no name cannot be stored.
abbrev unnamed : Session
unnamed = record session { turn = record turn { run_id = none } }

unnamed_raises :
    store workspace str unnamed.turn (number 3) keep_record legacy_head
    ≡ store_raised value_error legacy_head
unfolding store
unnamed_raises = refl

end_turn_unstored_example :
    (after : Session) × (end_turn workspace str
        (concat "completed")
        (number 3)
        keep_record
        none
        unnamed
      ≡ (err value_error, after))
    × (after.commits ≡ [])
    × ((k : Text) → lookup k after.kv.items ≡ lookup k legacy_head.items)
    × (ib' : Inbox) × (after.inbox ≡ some ib')
    × (ib'.pending ≡ read.delivered ++ read.pending)
    × (ib'.delivered ≡ [])
end_turn_unstored_example =
    end_turn_unstored workspace str (concat "completed") completed (number 3) keep_record none
      unnamed read value_error legacy_head is_completed refl refl refl tt refl unnamed_raises
