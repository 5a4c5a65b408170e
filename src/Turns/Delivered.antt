-- ===== src/Turns/Delivered.antt =====
-- `deliver` and `adeliver` of nontainer/turns.py: what they hand back, and what a failure puts back.
use nontainer.Prelude.{
  Text, ℕ, ◌+◌, ◌≤◌, true, Option, none, some, List, [], ◌∷◌, ◌++◌, append-nil, not, map,
  text_eq_refl, ◌≡◌, ◌⊎◌, inl, inr, refl, ap, ◌∙◌, arith, Option-cases, length, Bool-cases,
}
use nontainer.Inbox.Notes.{Note}
use nontainer.Inbox.Decimal.{IsDigits}
use nontainer.Inbox.Render.{Frame, split}
use nontainer.Inbox.Render as Rendering
use nontainer.Inbox.Render.RoundTrip.{split-render}
use nontainer.Inbox.{
  Inbox, Awaited, finished, failed, cancelled, heard, has_id, restore, render, announce,
}
use nontainer.Inbox.Counting.{count, count-has_id}
use nontainer.Inbox.Valid.{IsValid}
use nontainer.Turns.Delivery.{
  collect, appended, attach_notes, attach, announced, deliver, stopped, awaited, announce_async,
  adeliver,
}
use nontainer.Turns.Fresh.{
  keep-append, without, without-append, without_self, FreshAbove, FreshAbove-append,
  FreshAbove-mono, minted, without-minted,
}
use nontainer.Turns.Loop.{Minting, source_of, given, strays}
use nontainer.Turns.Collected.{Collected, collect-Collected, without_none, IsValid-FreshAbove}

-- Where no id stands twice in two lists together, they share none.
without_apart :
    (gone xs : List Note) → ((id : Text) → count id xs + count id gone ≤ 1) → without gone xs ≡ xs
unfolding count
without_apart gone [] h = refl
without_apart gone (x ∷ xs) h = ground (
  arith,
  h x.id,
  text_eq_refl x.id,
  count-has_id x.id gone,
  without_apart gone xs (λ id. ground (arith, h id)),
)

without_more : (a xs : List Note) → without a (xs ++ a) ≡ without a xs
without_more a xs = keep-append (λ n. not (has_id n.id a)) xs a ∙ rw (without_self a, append-nil)

-- The notes that the sources give are none of those that were there.
without-given :
    (sources : List Minting) (m : ℕ) (xs : List Note)
    → FreshAbove m xs
    → without (given sources m) xs ≡ xs
unfolding given
without-given [] m xs f = without_none xs
without-given (s ∷ sources) m xs f =
    let rest = given sources (m + length s.words) in
    let later =
      without-given sources (m + length s.words) xs (FreshAbove-mono (length s.words) f) in
    elim (Bool-cases s.raises) [
      | inl bad ↦ rw bad later
      | inr good ↦
          rw good
            (without-append (minted s.words m) rest xs ∙ rw later (without-minted s.words m xs f))
    ]

-- What is queued and delivered once the notes of a collection were put back: the notes collected
-- are queued ahead of the strays, and what had been delivered before is delivered still.
pub record PutBack (sources : List Minting) (ib after : Inbox) : Type 0 where
  pub pending : after.pending ≡ (ib.pending ++ given sources ib.minted) ++ strays sources ib.minted
  pub delivered : after.delivered ≡ ib.delivered

restore-PutBack :
    (sources : List Minting) (ib : Inbox) (r : List Note × Inbox)
    → IsValid ib
    → Collected sources ib r
    → PutBack sources ib (restore r.0 r.1)
unfolding restore
restore-PutBack sources ib r v c =
    let g = given sources ib.minted in
    let (d, p) = IsValid-FreshAbove ib v in
    record {
      pending = rw (c.notes, c.pending);
      delivered =
          rw (c.notes, c.delivered)
            (without-append ib.pending g ((ib.delivered ++ ib.pending) ++ g)
              ∙ rw
                  (
                    without_more g (ib.delivered ++ ib.pending),
                    without-given sources ib.minted (ib.delivered ++ ib.pending)
                        (FreshAbove-append d p),
                    without_more ib.pending ib.delivered,
                  )
                  (without_apart ib.pending ib.delivered (λ id. omega (arith, v.unique id))));
    }

attach-restore :
    (result : Text) (r : List Note × Inbox)
    → render r.0 r.1 ≡ none
    → attach_notes result r ≡ (result, [], restore r.0 r.1)
unfolding attach_notes Rendering.render
attach-restore result ([], ib) h = cc
attach-restore result (n ∷ notes, ib) h = ap (appended result (n ∷ notes) ib) h

announce-async : (notes : List Note) (ib : Inbox) → (announce notes true ib).1 ≡ ib
unfolding announce heard
announce-async notes ib = ground arith

awaited-stopped :
    (a : Text) (notes : List Note) (o : Option Awaited × Inbox) (after : Inbox)
    → awaited a notes o ≡ stopped after
    → after ≡ restore notes o.1
awaited-stopped a notes (none, ib) after h = absurd (cc)
awaited-stopped a notes (some finished, ib) after h = absurd (cc)
awaited-stopped a notes (some failed, ib) after h = absurd (cc)
awaited-stopped a notes (some cancelled, ib) after h = cc

appended-stopped :
    (result : Text) (n : Note) (notes : List Note) (ib : Inbox) (block : Option Text)
    (after : Inbox)
    → announce_async (appended result (n ∷ notes) ib block) ≡ stopped after
    → after ≡ restore (n ∷ notes) ib
unfolding announce_async
appended-stopped result n notes ib none after h = absurd (cc)
appended-stopped result n notes ib (some block) after h =
    awaited-stopped (result ++ block) (n ∷ notes) (announce (n ∷ notes) true ib) after h
    ∙ ap (restore (n ∷ notes)) (announce-async (n ∷ notes) ib)

attach-stopped :
    (result : Text) (r : List Note × Inbox) (after : Inbox)
    → announce_async (attach_notes result r) ≡ stopped after
    → after ≡ restore r.0 r.1
unfolding attach_notes announce_async
attach-stopped result ([], ib) after h = absurd (cc)
attach-stopped result (n ∷ notes, ib) after h =
    appended-stopped result n notes ib (render (n ∷ notes) ib) after h

module _ (sources : List Minting) (result : Text) (ib : Inbox) (v : IsValid ib) where
  -- On an inbox in which no id is held twice, and with sources each of which does nothing to the inbox
  -- but to deliver notes of its own by `deliver_now`, and then returns exactly these notes or raises:
  -- where the notes cannot be framed, the result is handed back as it was, with no notes, and every note
  -- of the delivery waits for the next one, ahead of the failing sources' notes.
  pub deliver_unframed :
      render (collect (map source_of sources) ib).0 (collect (map source_of sources) ib).1 ≡ none
      → (after : Inbox) × (deliver (map source_of sources) result ib ≡ (result, [], after))
        × PutBack sources ib after
  unfolding deliver attach
  deliver_unframed h =
      let r = collect (map source_of sources) ib in
      (
        restore r.0 r.1,
        ap announced (attach-restore result r h),
        restore-PutBack sources ib r v (collect-Collected sources ib v),
      )

  -- On an inbox in which no id is held twice, and with sources each of which does nothing to the inbox
  -- but to deliver notes of its own by `deliver_now`, and then returns exactly these notes or raises: a
  -- cancel that lands while the
  -- delivery waits on the callback puts every note back, and what had been delivered before is delivered
  -- still.
  pub adeliver_cancelled :
      (after : Inbox)
      → adeliver (map source_of sources) result ib ≡ stopped after
      → PutBack sources ib after
  unfolding adeliver attach
  adeliver_cancelled after h =
      let r = collect (map source_of sources) ib in
      rw (attach-stopped result r after h)
        (restore-PutBack sources ib r v (collect-Collected sources ib v))

-- What is handed back for the notes of a delivery: the bare result, where there are none or they cannot
-- be framed; or the result, with them framed as one block behind it, and the notes.
pub data Handing (digit : ℕ → Option ℕ) (result : Text) (notes : List Note) (frame : Option Frame)
    (t : Text) (told : List Note) : Type 0 where
  bare :
      (notes ≡ []) ⊎ (Rendering.render frame notes ≡ none)
      → t ≡ result
      → told ≡ []
      → Handing digit result notes frame t told
  framed :
      (block : Text)
      → Rendering.render frame notes ≡ some block
      → t ≡ result ++ block
      → told ≡ notes
      → split digit t ≡ (result, block)
      → Handing digit result notes frame t told

attach-Handing :
    (digit : ℕ → Option ℕ)
    → IsDigits digit
    → (result : Text) (notes : List Note) (ib : Inbox)
    → Handing digit result notes ib.frame
        (attach_notes result (notes, ib)).0
        (attach_notes result (notes, ib)).1
unfolding attach_notes
attach-Handing digit h result [] ib = bare (inl refl) refl refl
attach-Handing digit h result (n ∷ notes) ib = elim (Option-cases (render (n ∷ notes) ib)) [
  | inl e ↦ rw e (bare (inr e) refl refl)
  | inr (block, e) ↦
      rw e (framed block e refl refl (split-render digit h ib.frame n notes result block e))
]

Handing-same :
    {digit : ℕ → Option ℕ} {result t : Text} {notes notes' told : List Note} {f f' : Option Frame}
    → notes ≡ notes'
    → f ≡ f'
    → Handing digit result notes f t told
    → Handing digit result notes' f' t told
Handing-same e g h = rw (← e, ← g) h

-- What a delivery hands back, on an inbox in which no id is held twice and with sources each of which
-- does nothing to the inbox but to deliver notes of its own by `deliver_now`, and then returns exactly
-- these notes or raises. With `notes` the queued notes and then those of the sources that return: where
-- there are none, or the framing of them raises, the bare result and no notes; else the result with the
-- block that frames them behind it, which `split` takes off again, whatever the result ends with and
-- however the notes are framed, and these notes.
pub split-deliver :
    (digit : ℕ → Option ℕ)
    → IsDigits digit
    → (sources : List Minting) (result : Text) (ib : Inbox) → IsValid ib
    → Handing digit result
        (ib.pending ++ given sources ib.minted)
        ib.frame
        (deliver (map source_of sources) result ib).0
        (deliver (map source_of sources) result ib).1
unfolding deliver attach
split-deliver digit h sources result ib v =
    let r = collect (map source_of sources) ib in
    let c = collect-Collected sources ib v in
    Handing-same c.notes c.frame (attach-Handing digit h result r.0 r.1)
