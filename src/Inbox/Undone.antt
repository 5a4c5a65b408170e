-- ===== src/Inbox/Undone.antt =====
-- An attempt that is thrown away after its notes were delivered.
use mathlib.Core.Path.{subst}
use nontainer.Prelude.{◌≡◌, refl, sym, ap, ◌∙◌, suc, List, [], ◌∷◌, ◌++◌, append_assoc, append-nil}
use nontainer.Inbox.Notes.{Note}
use nontainer.Inbox.{Inbox, Words, mint, put, drain, requeue}

-- The words queued one after another.
unfoldable pub put_all : List Words → Inbox → Inbox
put_all [] ib = ib
put_all (w ∷ ws) ib = put_all ws (put w ib).1

-- Notes queued in front of what the inbox holds, and others taken to be delivered, stay out of `put_all`'s way.
put_all-shift :
    (ws : List Words) (front back gone : List Note) (ib : Inbox)
    → put_all ws (record ib { pending = front ++ back; delivered = gone }) ≡ (
        let later = put_all ws (record ib { pending = back; delivered = [] }) in
        record later { pending = front ++ later.pending; delivered = gone })
unfolding put_all put mint
put_all-shift [] front back gone ib = refl
put_all-shift (w ∷ ws) front back gone ib =
    rw (append_assoc front back (mint w (suc ib.minted) ∷ [])) (
      put_all-shift ws front (back ++ mint w (suc ib.minted) ∷ []) gone
        (record ib { minted = suc ib.minted }))

requeue-taken :
    (ws : List Words) (ib : Inbox) (n : Note) (ns : List Note)
    → (requeue (put_all ws (record ib { pending = []; delivered = n ∷ ns }))).1
      ≡ put_all ws (record ib { pending = n ∷ ns; delivered = [] })
unfolding requeue
requeue-taken ws ib n ns = rw (put_all-shift ws [] [] (n ∷ ns) ib) (
    sym (
      ap (λ (p : List Note). put_all ws (record ib { pending = p; delivered = [] }))
        (sym (append-nil (n ∷ ns)))
      ∙ put_all-shift ws (n ∷ ns) [] [] ib))

requeue-idle :
    (ws : List Words) (ib : Inbox)
    → (requeue (put_all ws (record ib { delivered = [] }))).1
      ≡ put_all ws (record ib { delivered = [] })
unfolding requeue
requeue-idle ws ib = rw (put_all-shift ws [] ib.pending [] ib)

undrain_cases :
    (ws : List Words) (ib : Inbox) (notes : List Note)
    → (requeue (put_all ws (drain (record ib { pending = notes; delivered = [] })).1)).1
      ≡ put_all ws (record ib { pending = notes; delivered = [] })
unfolding drain
undrain_cases ws ib [] = requeue-idle ws (record ib { pending = [] })
undrain_cases ws ib (n ∷ ns) = requeue-taken ws ib n ns

-- A delivery that is thrown away leaves no trace: where nothing was delivered before, draining
-- the queue, queueing any words after that, and requeueing gives the inbox that queueing those
-- words alone gives, with the drained notes ahead of them.
pub requeue-drain :
    (ws : List Words) (ib : Inbox)
    → ib.delivered ≡ []
    → (requeue (put_all ws (drain ib).1)).1 ≡ put_all ws ib
requeue-drain ws ib h =
    let same : record ib { delivered = [] } ≡ ib = λ i. record ib { delivered = sym h i } in
    subst (λ (x : Inbox). (requeue (put_all ws (drain x).1)).1 ≡ put_all ws x) same
      (undrain_cases ws ib ib.pending)
