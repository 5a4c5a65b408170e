-- ===== src/Turns/Delivery.antt =====
-- Delivery in nontainer/turns.py: what a turn appends to a tool result. Each function takes the
-- turn's inbox and gives the inbox back beside its result.
use nontainer.Prelude.{
  Text, true, false, List, Option, none, some, [], ◌∷◌, ◌++◌, if◌then◌else◌, not, is_empty, keep,
  member,
}
use nontainer.Inbox.Notes.{Note}
use nontainer.Inbox.{Inbox, Awaited, finished, failed, cancelled, drain, restore, render, announce}

-- How a source's call ends: with the notes that it adds, or by an `Exception`.
pub data SourceRun : Type 0 where
  gave : List Note → Inbox → SourceRun
  source_raised : Inbox → SourceRun

abbrev pub Source : Type 0
Source = Inbox → SourceRun

unfoldable pub ids : List Note → List Text
ids [] = []
ids (note ∷ notes) = note.id ∷ ids notes

-- `[n for n in inbox.delivered() if n.id not in before]`
abbrev pub delivered_since : List Text → Inbox → List Note
delivered_since before ib = keep (λ n. not (member n.id before)) ib.delivered

-- The loop of `collect`, with the notes so far and the failing sources' notes.
unfoldable pub collect_from :
    List Source → List Note → List Note → Inbox → List Note × List Note × Inbox
collect_from [] notes stray ib = (notes, stray, ib)
collect_from (source ∷ sources) notes stray ib = elim (source ib) [
  | gave more ib' ↦ collect_from sources (notes ++ more) stray ib'
  | source_raised ib' ↦
      collect_from sources notes (stray ++ delivered_since (ids ib.delivered) ib') ib'
]

-- `inbox.restore(stray)`, where there is any.
abbrev pub restore_stray : List Note × List Note × Inbox → List Note × Inbox
restore_stray (notes, stray, ib) = (notes, if is_empty stray then ib else restore stray ib)

unfoldable pub collect : List Source → Inbox → List Note × Inbox
collect sources ib =
    let (notes, ib') = drain ib in restore_stray (collect_from sources notes [] ib')

-- What `_attach` and `_open` make of the notes: appended to the result, or, where the framing
-- raises, put back.
abbrev pub appended : Text → List Note → Inbox → Option Text → Text × List Note × Inbox
appended result notes ib (some block) = (result ++ block, notes, ib)
appended result notes ib none = (result, [], restore notes ib)

unfoldable pub attach_notes : Text → List Note × Inbox → Text × List Note × Inbox
attach_notes result ([], ib) = (result, [], ib)
attach_notes result (note ∷ notes, ib) =
    appended result (note ∷ notes) ib (render (note ∷ notes) ib)

-- `_attach`
unfoldable pub attach : List Source → Text → Inbox → Text × List Note × Inbox
attach sources result ib = attach_notes result (collect sources ib)

abbrev pub opened : List Note → Inbox → Option Text → Option Text × List Note × Inbox
opened notes ib (some block) = (some block, notes, ib)
opened notes ib none = (none, [], restore notes ib)

unfoldable pub open_notes : List Note × Inbox → Option Text × List Note × Inbox
open_notes ([], ib) = (none, [], ib)
open_notes (note ∷ notes, ib) = opened (note ∷ notes) ib (render (note ∷ notes) ib)

-- `_open`
abbrev open_turn : List Source → Inbox → Option Text × List Note × Inbox
open_turn sources ib = open_notes (collect sources ib)

-- `announce` of the notes, where there are any, with no loop to await in.
abbrev pub announced : {A : Type 0} → A × List Note × Inbox → A × List Note × Inbox
announced (a, notes, ib) = (a, notes, if is_empty notes then ib else (announce notes false ib).1)

unfoldable pub deliver : List Source → Text → Inbox → Text × List Note × Inbox
deliver sources result ib = announced (attach sources result ib)

unfoldable pub opening : List Source → Inbox → Option Text × Inbox
opening sources ib = let (t, notes, ib') = announced (open_turn sources ib) in (t, ib')

-- How an async delivery ends: it hands the result back, or a cancel goes on.
pub data Handed (A : Type 0) : Type 0 where
  handed : A → List Note → Inbox → Handed A
  stopped : Inbox → Handed A

-- The await of what the callback returned.
abbrev pub awaited : {A : Type 0} → A → List Note → Option Awaited × Inbox → Handed A
awaited a notes (none, ib) = handed a notes ib
awaited a notes (some finished, ib) = handed a notes ib
awaited a notes (some failed, ib) = handed a notes ib
awaited a notes (some cancelled, ib) = stopped (restore notes ib)

unfoldable pub announce_async : {A : Type 0} → A × List Note × Inbox → Handed A
announce_async (a, [], ib) = handed a [] ib
announce_async (a, note ∷ notes, ib) = awaited a (note ∷ notes) (announce (note ∷ notes) true ib)

unfoldable pub adeliver : List Source → Text → Inbox → Handed Text
adeliver sources result ib = announce_async (attach sources result ib)

unfoldable pub aopening : List Source → Inbox → Handed (Option Text)
aopening sources ib = announce_async (open_turn sources ib)
