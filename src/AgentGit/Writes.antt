-- ===== src/AgentGit/Writes.antt =====
-- Writes of nontainer/agentgit.py that nothing stands in the way of.
use nontainer.Prelude.{
  Text, Bool, true, false, List, Option, none, some, [], ◌∷◌, ◌≡◌, ◌⊎◌, refl, sym, ap, ◌∙◌,
  if◌then◌else◌, ◌&&◌, not, any, lookup, insert, erase, keys, member, text_eq, text_eq_iff,
  text_eq_refl, is_some, lookup-insert, lookup-erase, member-keys, any-member, Bool-cases,
  Option-cases, inl, inr, arith,
}
use nontainer.AgentGit.Trees.{Tree, in_way, put, put_each, remove_each}

-- No file of the tree stands in another's way: none is below another.
unfoldable pub Untangled : Tree → Type 0
Untangled t =
    (p q : Text) → is_some (lookup p t) ≡ true → is_some (lookup q t) ≡ true → in_way p q ≡ false

pub all_clear :
    (f : Text → Bool) (ks : List Text)
    → ((q : Text) → member q ks ≡ true → f q ≡ false)
    → any f ks ≡ false
unfolding member
all_clear f [] h = refl
all_clear f (k ∷ ks) h =
    rw (h k (rw (text_eq_refl k) refl), all_clear f ks (λ q m. h q (ground arith))) refl

-- A write is not refused where nothing stands in its way.
pub put_free :
    (path value : Text) (tree : Tree)
    → ((q : Text) → is_some (lookup q tree) ≡ true → in_way path q ≡ false)
    → put path value tree ≡ (true, insert path value tree)
unfolding put
put_free path value tree h =
    rw (all_clear (in_way path) (keys tree) (λ q m. h q (sym (member-keys q tree) ∙ m))) refl

pub lookup-remove_each :
    (source : Tree) (paths : List Text) (tree : Tree) (k : Text)
    → lookup k (remove_each source paths tree)
      ≡ (if member k paths && not (is_some (lookup k source)) then none else lookup k tree)
unfolding remove_each member
lookup-remove_each source [] tree k = refl
lookup-remove_each source (path ∷ paths) tree k =
    elim (Bool-cases (not (is_some (lookup path source)) && is_some (lookup path tree))) [
      | inl e ↦ rw (e) (
          ground (
            arith,
            text_eq_iff path k,
            lookup-erase path k tree,
            lookup-remove_each source paths (erase path tree) k,
          ))
      | inr e ↦ rw (e) (ground (arith, text_eq_iff path k, lookup-remove_each source paths tree k))
    ]

-- Nothing that is there or is to be written stands in the way of what is to be written.
unfoldable pub Free : Tree → List Text → Tree → Type 0
Free source paths tree =
    (p q : Text)
    → member p paths ≡ true
    → is_some (lookup p source) ≡ true
    → (is_some (lookup q tree) ≡ true)
      ⊎ ((member q paths ≡ true) × (is_some (lookup q source) ≡ true))
    → in_way p q ≡ false

-- The value of a path once the writes are made.
unfoldable pub mixed : Tree → List Text → Tree → Text → Option Text
mixed source paths tree k =
    if member k paths && is_some (lookup k source) then lookup k source else lookup k tree

-- How writes end that are not refused.
pub record Wrote (source : Tree) (paths : List Text) (tree : Tree) (r : Bool × Tree) : Type 0 where
  pub written : r.0 ≡ true
  pub values : (k : Text) → lookup k r.1 ≡ mixed source paths tree k

Free-skip :
    (source : Tree) (path : Text) (paths : List Text) (tree : Tree)
    → Free source (path ∷ paths) tree
    → Free source paths tree
unfolding Free member
Free-skip source path paths tree h p q m s (inl t) = h p q (ground arith) s (inl t)
Free-skip source path paths tree h p q m s (inr (n, u)) =
    h p q (ground arith) s (inr (ground arith, u))

is_some-insert :
    (path value : Text) (tree : Tree) (q : Text)
    → is_some (lookup q (insert path value tree)) ≡ true
    → (path ≡ q) ⊎ (is_some (lookup q tree) ≡ true)
is_some-insert path value tree q h = elim (Bool-cases (text_eq path q)) [
  | inl e ↦ inl ((text_eq_iff path q).0 e)
  | inr d ↦ inr (ground (arith, lookup-insert path q value tree))
]

Free-step :
    (source : Tree) (path value : Text) (paths : List Text) (tree : Tree)
    → lookup path source ≡ some value
    → Free source (path ∷ paths) tree
    → Free source paths (insert path value tree)
unfolding Free member
Free-step source path value paths tree e h p q m s (inr (n, u)) =
    h p q (ground arith) s (inr (ground arith, u))
Free-step source path value paths tree e h p q m s (inl t) =
    elim (is_some-insert path value tree q t) [
      | inl same ↦
          h p q (ground arith) s (inr (rw (same, text_eq_refl q) refl, rw⁻¹ same (rw (e) refl)))
      | inr there ↦ h p q (ground arith) s (inl there)
    ]

first_put :
    (source : Tree) (path value : Text) (paths : List Text) (tree : Tree)
    → lookup path source ≡ some value
    → Free source (path ∷ paths) tree
    → put path value tree ≡ (true, insert path value tree)
unfolding Free member
first_put source path value paths tree e h =
    put_free path value tree
      (λ q there. h path q (rw (text_eq_refl path) refl) (rw (e) refl) (inl there))

mixed-skip :
    (source : Tree) (path : Text) (paths : List Text) (tree : Tree) (k : Text)
    → lookup path source ≡ none
    → mixed source paths tree k ≡ mixed source (path ∷ paths) tree k
unfolding mixed member
mixed-skip source path paths tree k e = elim (Bool-cases (text_eq path k)) [
  | inl same ↦
      let at_k : lookup k source ≡ none =
        ap (λ j. lookup j source) (sym ((text_eq_iff path k).0 same)) ∙ e in
      rw (same, at_k) (ground arith)
  | inr other ↦ rw (other) refl
]

mixed-step :
    (source : Tree) (path value : Text) (paths : List Text) (tree : Tree) (k : Text)
    → lookup path source ≡ some value
    → mixed source paths (insert path value tree) k ≡ mixed source (path ∷ paths) tree k
unfolding mixed member
mixed-step source path value paths tree k e = elim (Bool-cases (text_eq path k)) [
  | inl same ↦
      let at_k : lookup k source ≡ some value =
        ap (λ j. lookup j source) (sym ((text_eq_iff path k).0 same)) ∙ e in
      rw (lookup-insert path k value tree, same, at_k) (ground arith)
  | inr other ↦ rw (lookup-insert path k value tree, other) refl
]

-- Writes that nothing stands in the way of are all made.
pub put_each-Wrote :
    (source : Tree) (paths : List Text) (tree : Tree)
    → Free source paths tree
    → Wrote source paths tree (put_each source paths tree)
unfolding put_each mixed member
put_each-Wrote source [] tree h = record { written = refl; values = λ k. refl }
put_each-Wrote source (path ∷ paths) tree h = elim (Option-cases (lookup path source)) [
  | inl e ↦
      let rest = put_each-Wrote source paths tree (Free-skip source path paths tree h) in
      rw (e, put_each)
        (record {
          written = rest.written;
          values = λ k. rest.values k ∙ mixed-skip source path paths tree k e;
        })
  | inr (value, e) ↦
      let rest =
        put_each-Wrote source paths (insert path value tree)
          (Free-step source path value paths tree e h) in
      rw (e, put_each, first_put source path value paths tree e h)
        (record {
          written = rest.written;
          values = λ k. rest.values k ∙ mixed-step source path value paths tree k e;
        })
]

-- A tree none of whose paths is below another is untangled.
pub any-Untangled : (t : Tree) → any (λ p. any (in_way p) (keys t)) (keys t) ≡ false → Untangled t
unfolding Untangled
any-Untangled t h p q at_p at_q = elim (Bool-cases (in_way p q)) [
  | inr apart ↦ apart
  | inl way ↦
      let below = any-member (in_way p) q (keys t) (member-keys q t ∙ at_q) way in
      let tangle =
        any-member (λ x. any (in_way x) (keys t)) p (keys t) (member-keys p t ∙ at_p) below in
      absurd (cc)
]
