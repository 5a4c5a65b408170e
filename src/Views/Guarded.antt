-- ===== src/Views/Guarded.antt =====
-- What the guards of nontainer/views.py let through.
use nontainer.Prelude.{
  Text, Bool, true, false, List, Option, some, inl, inr, [], ◌∷◌, ◌≡◌, ◌⊎◌, refl, text_eq, ◌&&◌,
  not, member, arith, Bool-cases, All, text_eq_refl, text_eq_iff,
}
use nontainer.Views.{
  Fs, View, Guard, allowed, refused, missing, abs, visible_abs, visible, shows, escapes, reachable,
  widen, guard_write, guard_writes,
}
use nontainer.Views.Leads.{StaysIn, LeadsOut, escapes-Leads}
use nontainer.Views.Widened.{
  Wider, Wider-refl, Wider-trans, widen-Wider, visible_abs-widen, widen_one_only,
}

-- What a write of a path may do: it does not lead out of the view, and the view shows it or nothing
-- is there.
pub Writable : Fs → View → Text → Type 0
Writable fs v path = StaysIn fs v path × ((visible fs v path ≡ true) ⊎ (fs.present path ≡ false))

-- The write rule: a path is let through, and then shown, or refused, and then the view is the same.
pub data Ruled (fs : Fs) (path : Text) (v : View) : Guard × View → Type 0 where
  lets :
      (v' : View)
      → Writable fs v path
      → visible fs v' path ≡ true
      → Wider v v'
      → ((t : Text)
          → visible_abs v' t ≡ true
          → (visible_abs v t ≡ true)
            ⊎ ((visible fs v path ≡ false) × (shows t (abs fs path) ≡ true)))
      → Ruled fs path v (allowed, v')
  refuses :
      LeadsOut fs v path ⊎ ((visible fs v path ≡ false) × (fs.present path ≡ true))
      → Ruled fs path v (refused, v)

member_one : (t : Text) → member t (t ∷ []) ≡ true
unfolding member
member_one t = rw (text_eq_refl t) refl

only_hidden :
    {A : Type 0} {b c : Bool} → b ≡ false → A ⊎ (c ≡ true) → A ⊎ ((b ≡ false) × (c ≡ true))
only_hidden hidden (inl a) = inl a
only_hidden hidden (inr c) = inr (hidden, c)

module _ (fs : Fs) (path : Text) (v : View) where
  -- `_guard_write` lets a write through where its path does not lead out of the view, and is one
  -- that the view shows or that is not there. A path does not lead out where the backend resolves it
  -- to itself or to one that the view shows, or, where nothing resolves it, where it is not known to be
  -- a link. The view then shows the path and all that it showed, and, only where it hid the path, what
  -- is below it and the way to it, and no more. Else, for a path that resolves to another one that the
  -- view hides, for a link that nothing resolves, and for a path that the view hides and that is there,
  -- it refuses and leaves the view as it was.
  pub guard_write-Ruled : Ruled fs path v (guard_write fs path v)
  unfolding guard_write Writable visible
  guard_write-Ruled = elim (escapes-Leads fs v path) [
    | inr (e, out) ↦ rw (e) (refuses (inl out))
    | inl (inside, stays) ↦ elim (Bool-cases (visible_abs v (abs fs path))) [
      | inl e ↦ rw (inside, e) (lets v (stays, inl e) e (Wider-refl v) (λ t h. inl h))
      | inr hidden ↦ elim (Bool-cases (fs.present path)) [
        | inl e ↦ rw (inside, hidden, e) (refuses (inr (hidden, e)))
        | inr absent ↦
            rw (inside, hidden, absent)
              (lets (widen (abs fs path ∷ []) v) (stays, inr absent)
                (visible_abs-widen (abs fs path ∷ []) v (abs fs path) (member_one (abs fs path)))
                (widen-Wider (abs fs path ∷ []) v)
                (λ t h. only_hidden hidden (widen_one_only (abs fs path) v t h)))
      ]
    ]
  ]

shown_more :
    (fs : Fs) (v v' : View) (p : Text) → Wider v v' → visible fs v p ≡ true → visible fs v' p ≡ true
unfolding visible Wider
shown_more fs v v' p w h = w (abs fs p) h

-- What the guard of a batch leaves: all that was shown stays shown, and where the batch is let
-- through so is every path of it.
pub record Batched (fs : Fs) (paths : List Text) (v : View) (r : Guard × View) : Type 0 where
  pub wider : Wider v r.1
  pub shown : r.0 ≡ allowed → All (λ p. visible fs r.1 p ≡ true) paths

Batched-step :
    (fs : Fs) (path : Text) (paths : List Text) (v : View) (r : Guard × View)
    → Ruled fs path v r
    → ((v' : View) → Batched fs paths v' (guard_writes fs paths v'))
    → Batched fs (path ∷ paths) v (elim r.0 [
      | allowed ↦ guard_writes fs paths r.1
      | refused ↦ (refused, r.1)
      | missing ↦ (missing, r.1)
    ])
Batched-step fs path paths v r (lets v' ok seen w more_seen) rest =
    let more = rest v' in
    record {
      wider = Wider-trans v v' (guard_writes fs paths v').1 w more.wider;
      shown =
          λ e. (shown_more fs v' (guard_writes fs paths v').1 path more.wider seen, more.shown e);
    }
Batched-step fs path paths v r (refuses why) rest = record {
  wider = Wider-refl v;
  shown = λ e. absurd (cc);
}

-- The guard of a batch of writes hides nothing that was shown, and where it lets the batch through
-- it shows every path of it.
pub guard_writes-Batched :
    (fs : Fs) (paths : List Text) (v : View) → Batched fs paths v (guard_writes fs paths v)
unfolding guard_writes
guard_writes-Batched fs [] v = record { wider = Wider-refl v; shown = λ e. tt }
guard_writes-Batched fs (path ∷ paths) v =
    Batched-step fs path paths v (guard_write fs path v) (guard_write-Ruled fs path v)
      (guard_writes-Batched fs paths)

-- What a second name for a file comes to, where it leads to `place`.
pub data Aliased (fs : Fs) (dst place : Text) (v : View) : Guard × View → Type 0 where
  hides_it :
      visible_abs v place ≡ false → fs.present place ≡ true → Aliased fs dst place v (refused, v)
  links :
      (r : Guard × View)
      → (visible_abs v place ≡ true) ⊎ (fs.present place ≡ false)
      → Ruled fs dst v r
      → Aliased fs dst place v r

both_true : (a b : Bool) → (a && not b) ≡ true → (a ≡ true) × (b ≡ false)
both_true true false h = (refl, refl)
both_true true true h = absurd (cc)
both_true false b h = absurd (cc)

escapes_resolved :
    (fs : Fs) (v : View) (realpath : Text → Option Text) (path resolved : Text)
    → fs.realpath ≡ some realpath
    → realpath path ≡ some resolved
    → text_eq (abs fs resolved) (abs fs path) ≡ false
    → escapes fs v path ≡ not (visible_abs v (abs fs resolved))
unfolding escapes text_eq visible_abs abs
escapes_resolved fs v realpath path resolved r e other = rw (r, e, other) refl

-- A path that the view lets be read leads, where the backend resolves paths, to one that it shows.
pub reachable_inside :
    (fs : Fs) (v : View) (realpath : Text → Option Text) (path resolved : Text)
    → fs.realpath ≡ some realpath
    → realpath path ≡ some resolved
    → reachable fs v path ≡ true
    → visible_abs v (abs fs resolved) ≡ true
unfolding reachable visible
reachable_inside fs v realpath path resolved r e h =
    let (seen, inside) = both_true (visible_abs v (abs fs path)) (escapes fs v path) h in
    elim (Bool-cases (text_eq (abs fs resolved) (abs fs path))) [
      | inl same ↦ rw ((text_eq_iff (abs fs resolved) (abs fs path)).0 same) seen
      | inr other ↦
          let hidden = escapes_resolved fs v realpath path resolved r e other in ground arith
    ]
