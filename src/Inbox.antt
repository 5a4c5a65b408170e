-- ===== src/Inbox.antt =====
-- nontainer/inbox.py: the class `Inbox`. Its methods run one at a time, under the inbox's lock, so
-- each is a function of the inbox; what threads interleave is the order of the calls.
pub mod Notes
pub mod Decimal
pub mod Render
pub mod Counting
pub mod Valid
pub mod Undone
pub mod Examples
use nontainer.Prelude.{
  Text, concat, ℕ, suc, Bool, true, false, Option, none, some, List, [], ◌∷◌, ◌++◌, length, keep,
  ◌||◌, not, text_eq, is_empty, if◌then◌else◌,
}
use nontainer.Inbox.Notes.{Note, NoteKind, Answer}
use nontainer.Inbox.Decimal.{print}
use nontainer.Inbox.Render
use nontainer.Inbox.Render.{Frame}

-- How awaiting what `on_delivered` returned ends: well, with an `Exception`, or by a cancel.
pub data Awaited : Type 0 where
  finished failed cancelled : Awaited

-- What calling `on_delivered` does: it raises, returns, or returns an awaitable.
pub data Outcome : Type 0 where
  raised plain : Outcome
  awaitable : Awaited → Outcome

pub record Inbox : Type 0 where
  pub frame : Option Frame
  pub on_delivered : Option (List Note → Outcome)
  pub pending : List Note
  pub delivered : List Note
  pub minted : ℕ
  pub async_callback_warned : Bool

-- `Inbox(frame=..., on_delivered=...)`
abbrev pub create : Option Frame → Option (List Note → Outcome) → Inbox
create frame on_delivered = record {
  frame = frame;
  on_delivered = on_delivered;
  pending = [];
  delivered = [];
  minted = 0;
  async_callback_warned = false;
}

-- What `put` and `deliver_now` take, with the clock's reading.
pub record Words : Type 0 where
  pub text : Text
  pub kind : NoteKind
  pub label : Text
  pub job : Option Text
  pub answer : Option Answer
  pub now : ℕ

-- `f"n{k}"`
unfoldable pub note_id : ℕ → Text
note_id k = concat "n" ++ print k

-- `_mint`: the note; each caller counts it too.
unfoldable pub mint : Words → ℕ → Note
mint w k = record {
  id = note_id k;
  text = w.text;
  kind = w.kind;
  label = w.label;
  created = w.now;
  job = w.job;
  answer = w.answer;
}

unfoldable pub put : Words → Inbox → Note × Inbox
put w ib =
    let k = suc ib.minted in
    (mint w k, record ib { minted = k; pending = ib.pending ++ mint w k ∷ [] })

-- `del self._pending[i]` at the first note of that id.
unfoldable pub remove_first : Text → List Note → Bool × List Note
remove_first id [] = (false, [])
remove_first id (note ∷ notes) =
    let (found, rest) = remove_first id notes in
    if text_eq note.id id then (true, notes) else (found, note ∷ rest)

unfoldable pub withdraw : Text → Inbox → Bool × Inbox
withdraw id ib =
    let (found, rest) = remove_first id ib.pending in (found, record ib { pending = rest })

unfoldable pub drain : Inbox → List Note × Inbox
drain ib =
    if is_empty ib.pending
    then ([], ib)
    else (ib.pending, record ib { pending = []; delivered = ib.delivered ++ ib.pending })

unfoldable pub deliver_now : Words → Inbox → Note × Inbox
deliver_now w ib =
    let k = suc ib.minted in
    (mint w k, record ib { minted = k; delivered = ib.delivered ++ mint w k ∷ [] })

unfoldable pub settle : Inbox → Inbox
settle ib = record ib { delivered = [] }

-- `id in {note.id for note in notes}`
unfoldable pub has_id : Text → List Note → Bool
has_id id [] = false
has_id id (note ∷ notes) = text_eq note.id id || has_id id notes

unfoldable pub restore : List Note → Inbox → Inbox
restore notes ib = record ib {
  pending = notes ++ ib.pending;
  delivered = keep (λ n. not (has_id n.id notes)) ib.delivered;
}

unfoldable pub requeue : Inbox → ℕ × Inbox
requeue ib =
    if is_empty ib.delivered
    then (0, ib)
    else (length ib.delivered, record ib { pending = ib.delivered ++ ib.pending; delivered = [] })

-- `Inbox.render`
abbrev pub render : List Note → Inbox → Option Text
render notes ib = Render.render ib.frame notes

-- An outcome of the callback: the awaitable, for an async delivery, or else the one warning.
unfoldable pub heard : Bool → Outcome → Inbox → Option Awaited × Inbox
heard allow_async raised ib = (none, ib)
heard allow_async plain ib = (none, ib)
heard true (awaitable w) ib = (some w, ib)
heard false (awaitable w) ib = (none, record ib { async_callback_warned = true })

unfoldable pub announce : List Note → Bool → Inbox → Option Awaited × Inbox
announce notes allow_async ib = elim ib.on_delivered [
  | none ↦ (none, ib)
  | some callback ↦ if is_empty notes then (none, ib) else heard allow_async (callback notes) ib
]
