-- ===== src/Views/Leads.antt =====
-- Where a path leads, as `_escapes` of nontainer/views.py finds it out.
use nontainer.Prelude.{
  Text, Bool, true, false, Option, none, some, inl, inr, ◌≡◌, ◌∙◌, ◌⊎◌, if◌then◌else◌, not, text_eq,
  text_eq_iff, refl, Bool-cases, Option-cases,
}
use nontainer.Views.{Fs, View, abs, visible_abs, link_escapes, escapes}

-- The backend does not resolve paths, or it raises on this one.
abbrev pub Unresolved : Fs → Text → Type 0
Unresolved fs path =
    (fs.realpath ≡ none)
    ⊎ ((realpath : Text → Option Text) × (fs.realpath ≡ some realpath) × (realpath path ≡ none))

-- The backend does not tell links, or raises on this path, or says that it is none.
abbrev pub NoLink : Fs → Text → Type 0
NoLink fs path =
    (fs.islink ≡ none)
    ⊎ ((islink : Text → Option Bool) × (fs.islink ≡ some islink)
        × ((islink path ≡ none) ⊎ (islink path ≡ some false)))

abbrev pub IsLink : Fs → Text → Type 0
IsLink fs path =
    (islink : Text → Option Bool) × (fs.islink ≡ some islink) × (islink path ≡ some true)

-- A path leads to itself, or to one that the view shows, or is no link where nothing resolves it.
pub data StaysIn (fs : Fs) (v : View) (path : Text) : Type 0 where
  to_itself :
      (realpath : Text → Option Text) (resolved : Text)
      → fs.realpath ≡ some realpath
      → realpath path ≡ some resolved
      → abs fs resolved ≡ abs fs path
      → StaysIn fs v path
  to_shown :
      (realpath : Text → Option Text) (resolved : Text)
      → fs.realpath ≡ some realpath
      → realpath path ≡ some resolved
      → visible_abs v (abs fs resolved) ≡ true
      → StaysIn fs v path
  no_link : Unresolved fs path → NoLink fs path → StaysIn fs v path

-- A path leads to another one, which the view hides, or is a link that nothing resolves.
pub data LeadsOut (fs : Fs) (v : View) (path : Text) : Type 0 where
  to_hidden :
      (realpath : Text → Option Text) (resolved : Text)
      → fs.realpath ≡ some realpath
      → realpath path ≡ some resolved
      → text_eq (abs fs resolved) (abs fs path) ≡ false
      → visible_abs v (abs fs resolved) ≡ false
      → LeadsOut fs v path
  unresolved_link : Unresolved fs path → IsLink fs path → LeadsOut fs v path

module _ (fs : Fs) (v : View) (path : Text) where
  abbrev pub Leads : Bool → Type 0
  Leads b = ((b ≡ false) × StaysIn fs v path) ⊎ ((b ≡ true) × LeadsOut fs v path)

  -- Where nothing resolves the path, `_escapes` says whether it is a link.
  on_link-Leads :
      Unresolved fs path → escapes fs v path ≡ link_escapes fs path → Leads (escapes fs v path)
  on_link-Leads u same = elim (Option-cases fs.islink) [
    | inl e ↦ inl (same ∙ rw (e) refl, no_link u (inl e))
    | inr (islink, e) ↦ elim (Option-cases (islink path)) [
      | inl raised ↦ inl (same ∙ rw (e, raised) refl, no_link u (inr (islink, e, inl raised)))
      | inr (true, is) ↦ inr (same ∙ rw (e, is) refl, unresolved_link u (islink, e, is))
      | inr (false, is) ↦ inl (same ∙ rw (e, is) refl, no_link u (inr (islink, e, inr is)))
    ]
  ]

  resolved-Leads :
      (realpath : Text → Option Text) (resolved : Text)
      → fs.realpath ≡ some realpath
      → realpath path ≡ some resolved
      → escapes fs v path ≡ (
          if text_eq (abs fs resolved) (abs fs path)
          then false
          else not (visible_abs v (abs fs resolved)))
      → Leads (escapes fs v path)
  resolved-Leads realpath resolved r p is =
      elim (Bool-cases (text_eq (abs fs resolved) (abs fs path))) [
        | inl same ↦ inl (
          is ∙ rw (same) refl,
          to_itself realpath resolved r p ((text_eq_iff (abs fs resolved) (abs fs path)).0 same),
        )
        | inr other ↦ elim (Bool-cases (visible_abs v (abs fs resolved))) [
          | inl seen ↦ inl (is ∙ rw (other, seen) refl, to_shown realpath resolved r p seen)
          | inr hidden ↦
              inr (is ∙ rw (other, hidden) refl, to_hidden realpath resolved r p other hidden)
        ]
      ]

  -- `_escapes` says whether a path leads out.
  pub escapes-Leads : Leads (escapes fs v path)
  unfolding escapes abs visible_abs text_eq
  escapes-Leads = elim (Option-cases fs.realpath) [
    | inl e ↦ on_link-Leads (inl e) (rw (e) refl)
    | inr (realpath, e) ↦ elim (Option-cases (realpath path)) [
      | inl raised ↦ on_link-Leads (inr (realpath, e, raised)) (rw (e, raised) refl)
      | inr (resolved, p) ↦ resolved-Leads realpath resolved e p (rw (e, p) refl)
    ]
  ]
