-- ===== src/Views/Admitted.antt =====
-- What `admit` of nontainer/views.py lets through, and what it leaves of the view.
use nontainer.Prelude.{
  Text, any_found, true, false, List, inl, inr, [], ◌∷◌, ◌≡◌, ◌⊎◌, if◌then◌else◌, is_empty, any,
  member, arith, Bool-cases, All,
}
use nontainer.Views.{
  Fs, View, Guard, allowed, refused, visible, widen, hidden_of, refuse_reason, admit,
}
use nontainer.Views.Widened.{Wider, visible-widen_hidden, Wider-widen_hidden}

-- What `admit` comes to: all of the paths, or none.
pub data Admitted (fs : Fs) (paths : List Text) (v : View) : Guard × View → Type 0 where
  admits :
      (v' : View)
      → All (λ p. (visible fs v p ≡ true) ⊎ (fs.present p ≡ false)) paths
      → ((p : Text) → member p paths ≡ true → visible fs v' p ≡ true)
      → Wider v v'
      → Admitted fs paths v (allowed, v')
  refuses_all :
      (p : Text)
      → member p paths ≡ true
      → (visible fs v p ≡ false) × (fs.present p ≡ true)
      → Admitted fs paths v (refused, v)

shown_or_absent :
    (fs : Fs) (v : View) (p : Text)
    → refuse_reason fs v p ≡ false
    → (visible fs v p ≡ true) ⊎ (fs.present p ≡ false)
unfolding refuse_reason
shown_or_absent fs v p h = elim (Bool-cases (visible fs v p)) [
  | inl seen ↦ inl seen
  | inr hidden ↦ inr (ground arith)
]

none_hidden :
    (fs : Fs) (v : View) (paths : List Text)
    → any (refuse_reason fs v) paths ≡ false
    → All (λ p. (visible fs v p ≡ true) ⊎ (fs.present p ≡ false)) paths
none_hidden fs v [] h = tt
none_hidden fs v (p ∷ paths) h =
    (shown_or_absent fs v p (ground arith), none_hidden fs v paths (ground arith))

hidden_present :
    (fs : Fs) (v : View) (p : Text)
    → refuse_reason fs v p ≡ true
    → (visible fs v p ≡ false) × (fs.present p ≡ true)
unfolding refuse_reason
hidden_present fs v p h = (ground arith, ground arith)

-- `admit` takes all of the paths or none: it takes them where each is shown or is not there, and the
-- view then shows every one of them, and all that it showed; or it refuses, for one of them that the
-- view hides and that is there, and leaves the view as it was.
pub admit-Admitted :
    (fs : Fs) (paths : List Text) (v : View) → Admitted fs paths v (admit fs paths v)
unfolding admit
admit-Admitted fs paths v = elim (Bool-cases (any (refuse_reason fs v) paths)) [
  | inl e ↦
      let (p, m, why) = any_found (refuse_reason fs v) paths e in
      rw (e) (refuses_all p m (hidden_present fs v p why))
  | inr e ↦ rw (e) (
      admits (if is_empty (hidden_of fs v paths) then v else widen (hidden_of fs v paths) v)
        (none_hidden fs v paths e) (visible-widen_hidden fs v paths)
        (Wider-widen_hidden fs v paths))
]
