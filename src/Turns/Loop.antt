-- ===== src/Turns/Loop.antt =====
-- The loop of `collect` in nontainer/turns.py, over sources that mint their notes delivered, as
-- `nontainer.sessions.answer_notes` does.
use nontainer.Prelude.{
  ℕ, suc, ◌+◌, Bool, true, false, List, [], ◌∷◌, ◌++◌, append_assoc, append-nil, not, length, map,
  if◌then◌else◌, ◌≡◌, refl, sym, ◌∙◌, arith, Bool-cases, inl, inr,
}
use nontainer.Inbox.Notes.{Note}
use nontainer.Inbox.{Inbox, Words, mint, has_id, deliver_now}
use nontainer.Turns.Delivery.{gave, source_raised, Source, ids, delivered_since, collect_from}
use nontainer.Turns.Fresh.{
  minted, FreshAbove, member-ids, keep-append, without, without-append, without_self,
  FreshAbove-append, FreshAbove-mono, minted-FreshAbove, without-minted, minted-without,
}

-- A source that mints these notes delivered, and then raises or returns them.
pub record Minting : Type 0 where
  pub words : List Words
  pub raises : Bool

unfoldable pub deliver_each : List Words → Inbox → Inbox
deliver_each [] ib = ib
deliver_each (w ∷ ws) ib = deliver_each ws (deliver_now w ib).1

abbrev pub source_of : Minting → Source
source_of s ib =
    if s.raises
    then source_raised (deliver_each s.words ib)
    else gave (minted s.words ib.minted) (deliver_each s.words ib)

-- The notes of the sources that return, and of those that raise, after `k` others.
unfoldable pub given : List Minting → ℕ → List Note
given [] k = []
given (s ∷ sources) k =
    let rest = given sources (k + length s.words) in
    if s.raises then rest else minted s.words k ++ rest

unfoldable pub strays : List Minting → ℕ → List Note
strays [] k = []
strays (s ∷ sources) k =
    let rest = strays sources (k + length s.words) in
    if s.raises then minted s.words k ++ rest else rest

unfoldable pub total : List Minting → ℕ
total [] = 0
total (s ∷ sources) = length s.words + total sources

deliver_each-minted :
    (ws : List Words) (ib : Inbox)
    → deliver_each ws ib ≡ record ib {
      delivered = ib.delivered ++ minted ws ib.minted;
      minted = ib.minted + length ws;
    }
unfolding deliver_each deliver_now minted
deliver_each-minted [] ib = λ i. record ib {
  delivered = sym (append-nil ib.delivered) i;
  minted = (let e : ib.minted ≡ ib.minted + 0 = omega arith in e) i;
}
deliver_each-minted (w ∷ ws) ib = deliver_each-minted ws (deliver_now w ib).1 ∙ λ i. record ib {
  delivered = append_assoc ib.delivered (mint w (suc ib.minted) ∷ []) (minted ws (suc ib.minted)) i;
  minted = (let e : suc ib.minted + length ws ≡ ib.minted + suc (length ws) = omega arith in e) i;
}

-- The state of the loop: nothing that is still to be minted is delivered or strayed, and without
-- the strays, what is delivered is `kept`.
pub record Loop (kept stray : List Note) (ib : Inbox) : Type 0 where
  pub delivered_fresh : FreshAbove ib.minted ib.delivered
  pub stray_fresh : FreshAbove ib.minted stray
  pub without_stray : without stray ib.delivered ≡ kept

abbrev pub after : List Words → Inbox → Inbox
after ws ib = record ib {
  delivered = ib.delivered ++ minted ws ib.minted;
  minted = ib.minted + length ws;
}

module _ (ws : List Words) (kept stray : List Note) (ib : Inbox) (l : Loop kept stray ib) where
  grown : FreshAbove (ib.minted + length ws) (ib.delivered ++ minted ws ib.minted)
  grown =
      FreshAbove-append (FreshAbove-mono (length ws) l.delivered_fresh)
        (minted-FreshAbove ws ib.minted)

  -- A source that returns: its notes are kept.
  Loop-gave : Loop (kept ++ minted ws ib.minted) stray (after ws ib)
  Loop-gave = record {
    delivered_fresh = grown;
    stray_fresh = FreshAbove-mono (length ws) l.stray_fresh;
    without_stray =
        keep-append (λ n. not (has_id n.id stray)) ib.delivered (minted ws ib.minted)
        ∙ rw (l.without_stray, minted-without ws ib.minted stray l.stray_fresh);
  }

  -- A source that raises: its notes stray.
  Loop-raised : Loop kept (stray ++ minted ws ib.minted) (after ws ib)
  Loop-raised = record {
    delivered_fresh = grown;
    stray_fresh =
        FreshAbove-append (FreshAbove-mono (length ws) l.stray_fresh)
          (minted-FreshAbove ws ib.minted);
    without_stray =
        without-append stray (minted ws ib.minted) (ib.delivered ++ minted ws ib.minted)
        ∙ rw
            (
              keep-append (λ n. not (has_id n.id (minted ws ib.minted))) ib.delivered
                  (minted ws ib.minted),
              without-minted ws ib.minted ib.delivered l.delivered_fresh,
              without_self (minted ws ib.minted),
              append-nil ib.delivered,
            )
            l.without_stray;
  }

  -- The notes that were not delivered before the source was called are its own.
  since : delivered_since (ids ib.delivered) (after ws ib) ≡ minted ws ib.minted
  since = simp member-ids (
      keep-append (λ n. not (has_id n.id ib.delivered)) ib.delivered (minted ws ib.minted)
      ∙ rw (without_self ib.delivered, minted-without ws ib.minted ib.delivered l.delivered_fresh))

-- The loop of `collect`, and the state that it leaves.
pub record Looped (sources : List Minting) (notes stray kept : List Note) (ib : Inbox)
    (r : List Note × List Note × Inbox) : Type 0 where
  pub notes_given : r.0 ≡ notes ++ given sources ib.minted
  pub notes_strayed : r.1 ≡ stray ++ strays sources ib.minted
  pub loop : Loop (kept ++ given sources ib.minted) (stray ++ strays sources ib.minted) r.2
  pub minted_total : r.2.minted ≡ ib.minted + total sources
  pub pending_same : r.2.pending ≡ ib.pending
  pub frame_same : r.2.frame ≡ ib.frame
  pub callback_same : r.2.on_delivered ≡ ib.on_delivered
  pub warned_same : r.2.async_callback_warned ≡ ib.async_callback_warned

module _ (s : Minting) (sources : List Minting) (notes stray kept : List Note) (ib : Inbox)
    (r : List Note × List Note × Inbox) where
  Looped-raised :
      s.raises ≡ true
      → Looped sources notes (stray ++ minted s.words ib.minted) kept (after s.words ib) r
      → Looped (s ∷ sources) notes stray kept ib r
  unfolding given strays total
  Looped-raised bad h =
      let k = ib.minted + length s.words in
      let same : given (s ∷ sources) ib.minted ≡ given sources k = ground arith in
      let more : (stray ++ minted s.words ib.minted) ++ strays sources k
          ≡ stray ++ strays (s ∷ sources) ib.minted =
        ground (arith, append_assoc stray (minted s.words ib.minted) (strays sources k)) in
      record {
        notes_given = rw same h.notes_given;
        notes_strayed = h.notes_strayed ∙ more;
        loop = rw (same, ← more) h.loop;
        minted_total = omega (arith, h.minted_total);
        pending_same = h.pending_same;
        frame_same = h.frame_same;
        callback_same = h.callback_same;
        warned_same = h.warned_same;
      }

  Looped-gave :
      s.raises ≡ false
      → Looped sources
          (notes ++ minted s.words ib.minted)
          stray
          (kept ++ minted s.words ib.minted)
          (after s.words ib)
          r
      → Looped (s ∷ sources) notes stray kept ib r
  unfolding given strays total
  Looped-gave good h =
      let k = ib.minted + length s.words in
      let same : strays (s ∷ sources) ib.minted ≡ strays sources k = ground arith in
      let more = λ (xs : List Note).
        let e : (xs ++ minted s.words ib.minted) ++ given sources k
            ≡ xs ++ given (s ∷ sources) ib.minted =
          ground (arith, append_assoc xs (minted s.words ib.minted) (given sources k)) in
        e in
      record {
        notes_given = h.notes_given ∙ more notes;
        notes_strayed = rw same h.notes_strayed;
        loop = rw (same, ← more kept) h.loop;
        minted_total = omega (arith, h.minted_total);
        pending_same = h.pending_same;
        frame_same = h.frame_same;
        callback_same = h.callback_same;
        warned_same = h.warned_same;
      }

pub looped :
    (sources : List Minting) (notes stray kept : List Note) (ib : Inbox)
    → Loop kept stray ib
    → Looped sources notes stray kept ib (collect_from (map source_of sources) notes stray ib)
unfolding collect_from given strays total
looped [] notes stray kept ib l = record {
  notes_given = sym (append-nil notes);
  notes_strayed = sym (append-nil stray);
  loop = rw (append-nil kept, append-nil stray) l;
  minted_total = omega arith;
  pending_same = refl;
  frame_same = refl;
  callback_same = refl;
  warned_same = refl;
}
looped (s ∷ sources) notes stray kept ib l = elim (Bool-cases s.raises) [
  | inl bad ↦ Looped-raised s sources notes stray kept ib _ bad (
      rw (bad, deliver_each-minted s.words ib, since s.words kept stray ib l)
        (looped sources notes (stray ++ minted s.words ib.minted) kept (after s.words ib)
          (Loop-raised s.words kept stray ib l)))
  | inr good ↦ Looped-gave s sources notes stray kept ib _ good (
      rw (good, deliver_each-minted s.words ib)
        (looped sources (notes ++ minted s.words ib.minted) stray (kept ++ minted s.words ib.minted)
          (after s.words ib) (Loop-gave s.words kept stray ib l)))
]
