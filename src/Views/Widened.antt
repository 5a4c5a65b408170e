-- ===== src/Views/Widened.antt =====
-- Widening the view of nontainer/views.py hides nothing that it showed.
use nontainer.Prelude.{
  Text, concat, Bool, true, false, List, inl, inr, [], ◌∷◌, ◌++◌, ◌≡◌, refl, if◌then◌else◌, text_eq,
  text_eq_iff, text_eq_refl, is_empty, ◌||◌, not, any, any_more, any-member, member-keep,
  sorted_set, keep, map, member, member-append, member-sorted_set, arith, Bool-cases, ◌∙◌, ◌⊎◌,
}
use nontainer.Views.{Fs, View, abs, shows, visible_abs, visible, widen, hidden_of, on_root}

-- A view shows all that another shows.
unfoldable pub Wider : View → View → Type 0
Wider v v' = (t : Text) → visible_abs v t ≡ true → visible_abs v' t ≡ true

pub Wider-refl : (v : View) → Wider v v
unfolding Wider
Wider-refl v t h = h

pub Wider-trans : (u v w : View) → Wider u v → Wider v w → Wider u w
unfolding Wider
Wider-trans u v w h g t e = g t (h t e)

member-widen :
    (targets paths : List Text) (k : Text)
    → member k paths ≡ true
    → member k (sorted_set (paths ++ targets)) ≡ true
member-widen targets paths k h =
    rw (member-sorted_set k (paths ++ targets), member-append k paths targets, h) refl

or_more : (a b c : Bool) → (b ≡ true → c ≡ true) → (a || b) ≡ true → (a || c) ≡ true
or_more true b c f h = refl
or_more false b c f h = f h

or_right : (a b : Bool) → b ≡ true → (a || b) ≡ true
or_right true b h = refl
or_right false b h = h

pub widen-Wider : (targets : List Text) (v : View) → Wider v (widen targets v)
unfolding Wider widen visible_abs
widen-Wider targets v t h =
    or_more (text_eq t (concat "/") || on_root v.root t) (any (shows t) v.paths)
      (any (shows t) (sorted_set (v.paths ++ targets)))
      (any_more (shows t) v.paths (sorted_set (v.paths ++ targets)) (member-widen targets v.paths))
      h

shows_refl : (t : Text) → shows t t ≡ true
unfolding shows
shows_refl t = rw (text_eq_refl t) refl

member-widen_one :
    (t0 : Text) (paths : List Text) (k : Text)
    → member k (sorted_set (paths ++ t0 ∷ [])) ≡ true
    → member k (t0 ∷ paths) ≡ true
unfolding member
member-widen_one t0 paths k h =
    ground (arith, member-sorted_set k (paths ++ t0 ∷ []), member-append k paths (t0 ∷ []))

-- A view that is widened by one path shows no more than that path, what is below it, and the way to it.
pub widen_one_only :
    (t0 : Text) (v : View) (t : Text)
    → visible_abs (widen (t0 ∷ []) v) t ≡ true
    → (visible_abs v t ≡ true) ⊎ (shows t t0 ≡ true)
unfolding widen visible_abs
widen_one_only t0 v t h = elim (Bool-cases (shows t t0)) [
  | inl e ↦ inr e
  | inr other ↦
      let more =
        any_more (shows t) (sorted_set (v.paths ++ t0 ∷ [])) (t0 ∷ v.paths)
          (member-widen_one t0 v.paths) in
      inl (ground (arith, more))
]

-- A path that the view is widened by is shown.
pub visible_abs-widen :
    (targets : List Text) (v : View) (t : Text)
    → member t targets ≡ true
    → visible_abs (widen targets v) t ≡ true
unfolding widen visible_abs
visible_abs-widen targets v t h =
    or_right (text_eq t (concat "/") || on_root v.root t)
      (any (shows t) (sorted_set (v.paths ++ targets)))
      (any-member (shows t) t (sorted_set (v.paths ++ targets))
        (member-sorted_set t (v.paths ++ targets)
          ∙ (member-append t v.paths targets ∙ or_right (member t v.paths) (member t targets) h))
        (shows_refl t))

member-map :
    (f : Text → Text) (k : Text) (ks : List Text)
    → member k ks ≡ true
    → member (f k) (map f ks) ≡ true
unfolding member
member-map f k [] m = absurd (cc)
member-map f k (j ∷ ks) m = elim (Bool-cases (text_eq j k)) [
  | inl e ↦ rw ((text_eq_iff j k).0 e, text_eq_refl (f k)) refl
  | inr d ↦
      or_right (text_eq (f j) (f k)) (member (f k) (map f ks)) (member-map f k ks (ground arith))
]

member-hidden :
    (fs : Fs) (v : View) (paths : List Text) (p : Text)
    → member p paths ≡ true
    → visible fs v p ≡ false
    → member (abs fs p) (hidden_of fs v paths) ≡ true
unfolding hidden_of
member-hidden fs v paths p m h =
    member-sorted_set (abs fs p) (map (abs fs) (keep (λ q. not (visible fs v q)) paths))
    ∙ member-map (abs fs) p (keep (λ q. not (visible fs v q)) paths)
        (member-keep (λ q. not (visible fs v q)) p paths ∙ rw (h, m) refl)

is_empty-member : (k : Text) (ks : List Text) → member k ks ≡ true → is_empty ks ≡ false
unfolding member
is_empty-member k [] h = absurd (cc)
is_empty-member k (j ∷ ks) h = refl

pub Wider-widen_hidden :
    (fs : Fs) (v : View) (paths : List Text)
    → Wider v (if is_empty (hidden_of fs v paths) then v else widen (hidden_of fs v paths) v)
Wider-widen_hidden fs v paths = elim (Bool-cases (is_empty (hidden_of fs v paths))) [
  | inl e ↦ rw (e) (Wider-refl v)
  | inr e ↦ rw (e) (widen-Wider (hidden_of fs v paths) v)
]

-- What `admit` and `show` widen the view by makes every path of theirs visible.
pub visible-widen_hidden :
    (fs : Fs) (v : View) (paths : List Text) (p : Text)
    → member p paths ≡ true
    → visible fs (if is_empty (hidden_of fs v paths) then v else widen (hidden_of fs v paths) v) p
      ≡ true
unfolding visible Wider
visible-widen_hidden fs v paths p m = elim (Bool-cases (visible_abs v (abs fs p))) [
  | inl e ↦ Wider-widen_hidden fs v paths (abs fs p) e
  | inr e ↦
      let there = member-hidden fs v paths p m e in
      rw (is_empty-member (abs fs p) (hidden_of fs v paths) there)
        (visible_abs-widen (hidden_of fs v paths) v (abs fs p) there)
]
