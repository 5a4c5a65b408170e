-- ===== src/Turns/Collected.antt =====
-- What `collect` of nontainer/turns.py delivers and what it puts back, for sources that mint
-- their notes delivered, as `nontainer.sessions.answer_notes` does.
use nontainer.Prelude.{◌+◌, List, [], ◌∷◌, ◌++◌, append-nil, map, ◌≡◌, refl, sym, ap, ◌∙◌, arith}
use nontainer.Inbox.Notes.{Note}
use nontainer.Inbox.{Inbox, note_id, has_id, drain, restore}
use nontainer.Inbox.Counting.{count-has_id}
use nontainer.Inbox.Valid.{IsValid}
use nontainer.Turns.Delivery.{restore_stray, collect}
use nontainer.Turns.Fresh.{FreshAbove, without, FreshAbove-append}
use nontainer.Turns.Loop.{Minting, source_of, given, strays, total, Loop, Looped, looped}

taken : Inbox → Inbox
taken ib = record ib { pending = []; delivered = ib.delivered ++ ib.pending }

drain-taken : (ib : Inbox) → drain ib ≡ (ib.pending, taken ib)
unfolding drain taken
drain-taken ib = ground (arith, append-nil ib.delivered)

pub without_none : (xs : List Note) → without [] xs ≡ xs
unfolding has_id
without_none [] = refl
without_none (x ∷ xs) = rw (without_none xs)

pub IsValid-FreshAbove :
    (ib : Inbox) → IsValid ib → FreshAbove ib.minted ib.delivered × FreshAbove ib.minted ib.pending
IsValid-FreshAbove ib v = (
  record { at = λ k h. ground (arith, v.fresh k h, count-has_id (note_id k) ib.delivered) },
  record { at = λ k h. ground (arith, v.fresh k h, count-has_id (note_id k) ib.pending) },
)

taken-Loop : (ib : Inbox) → IsValid ib → Loop (ib.delivered ++ ib.pending) [] (taken ib)
unfolding taken has_id
taken-Loop ib v =
    let (d, p) = IsValid-FreshAbove ib v in
    record {
      delivered_fresh = FreshAbove-append d p;
      stray_fresh = record { at = λ k h. refl };
      without_stray = without_none (ib.delivered ++ ib.pending);
    }

-- What `collect` returns, and the inbox that it leaves.
pub record Collected (sources : List Minting) (ib : Inbox) (r : List Note × Inbox) : Type 0 where
  pub notes : r.0 ≡ ib.pending ++ given sources ib.minted
  pub pending : r.1.pending ≡ strays sources ib.minted
  pub delivered : r.1.delivered ≡ (ib.delivered ++ ib.pending) ++ given sources ib.minted
  pub minted_total : r.1.minted ≡ ib.minted + total sources
  pub frame : r.1.frame ≡ ib.frame

restored :
    (sources : List Minting) (ib : Inbox) (r : List Note × List Note × Inbox)
    → Looped sources ib.pending [] (ib.delivered ++ ib.pending) (taken ib) r
    → Collected sources ib (restore_stray r)
unfolding taken restore
restored sources ib (notes, [], ib') h = record {
  notes = h.notes_given;
  pending = h.pending_same ∙ h.notes_strayed;
  delivered =
      sym (without_none ib'.delivered)
      ∙ (ap (λ gone. without gone ib'.delivered) h.notes_strayed ∙ h.loop.without_stray);
  minted_total = h.minted_total;
  frame = h.frame_same;
}
restored sources ib (notes, n ∷ stray, ib') h = record {
  notes = h.notes_given;
  pending = rw (h.pending_same, append-nil (n ∷ stray)) h.notes_strayed;
  delivered = ap (λ gone. without gone ib'.delivered) h.notes_strayed ∙ h.loop.without_stray;
  minted_total = h.minted_total;
  frame = h.frame_same;
}

-- On an inbox in which no id is held twice, and with sources each of which does nothing to the inbox
-- but to deliver notes of its own by `deliver_now`, and then returns exactly these notes or raises: a
-- delivery collects the queued notes and then those of the sources that return, in their order;
-- exactly these are delivered besides what was. The notes of the sources that raise are queued, in
-- the order of their sources, and nothing else is queued.
pub collect-Collected :
    (sources : List Minting) (ib : Inbox)
    → IsValid ib
    → Collected sources ib (collect (map source_of sources) ib)
unfolding collect
collect-Collected sources ib v = rw (drain-taken ib) (
    restored sources ib _
      (looped sources ib.pending [] (ib.delivered ++ ib.pending) (taken ib) (taken-Loop ib v)))
