-- ===== src/AgentGit/Restored.antt =====
-- Putting a tree back: what `_restore` of nontainer/agentgit.py leaves.
use nontainer.Prelude.{
  Text, Bool, true, false, List, Option, some, [], ◌∷◌, ◌≡◌, ◌⊎◌, refl, sym, ap, ◌∙◌, if◌then◌else◌,
  any, lookup, keys, member, text_eq, text_eq_iff, is_some, lookup-insert, Bool-cases, Option-cases,
  inl, inr, arith,
}
use nontainer.AgentGit.Writes.{Untangled, Free, mixed, put_each-Wrote, lookup-remove_each}
use nontainer.AgentGit.Trees.{Tree, in_way, put, put_each, remove_each, restore}

not_head :
    (path : Text) (paths : List Text) (k : Text)
    → member k (path ∷ paths) ≡ false
    → (text_eq path k ≡ false) × (member k paths ≡ false)
unfolding member
not_head path paths k m = (ground arith, ground arith)

put_others :
    (path value : Text) (tree : Tree) (k : Text)
    → text_eq path k ≡ false
    → lookup k (put path value tree).1 ≡ lookup k tree
unfolding put
put_others path value tree k other = elim (Bool-cases (any (in_way path) (keys tree))) [
  | inl e ↦ rw (e) refl
  | inr e ↦ rw (e, lookup-insert path k value tree, other) refl
]

pub written_or_not :
    (r rest : Bool × Tree) (k : Text) (v : Option Text)
    → lookup k r.1 ≡ v
    → lookup k rest.1 ≡ v
    → lookup k (if r.0 then rest else (false, r.1)).1 ≡ v
written_or_not (true, t) rest k v h g = g
written_or_not (false, t) rest k v h g = h

-- Whatever the writes come to, other paths keep what they had.
pub put_each_others :
    (source : Tree) (paths : List Text) (tree : Tree) (k : Text)
    → member k paths ≡ false
    → lookup k (put_each source paths tree).1 ≡ lookup k tree
unfolding put_each put member
put_each_others source [] tree k m = refl
put_each_others source (path ∷ paths) tree k m =
    let (other, rest) = not_head path paths k m in
    elim (Option-cases (lookup path source)) [
      | inl e ↦ rw (e, put_each) (put_each_others source paths tree k rest)
      | inr (value, e) ↦
          rw (e, put_each)
            (written_or_not (put path value tree) (put_each source paths (put path value tree).1) k
              (lookup k tree) (put_others path value tree k other)
              (put_each_others source paths (put path value tree).1 k rest
                ∙ put_others path value tree k other))
    ]

removed_within :
    (source : Tree) (paths : List Text) (tree : Tree) (k : Text)
    → ((j : Text) → member j paths ≡ false → lookup j tree ≡ lookup j source)
    → is_some (lookup k (remove_each source paths tree)) ≡ true
    → is_some (lookup k source) ≡ true
removed_within source paths tree k same h = elim (Bool-cases (member k paths)) [
  | inl m ↦ ground (arith, lookup-remove_each source paths tree k)
  | inr m ↦ ground (arith, lookup-remove_each source paths tree k, same k)
]

there_before :
    (source : Tree) (paths : List Text) (tree : Tree) (q : Text)
    → ((j : Text) → member j paths ≡ false → lookup j tree ≡ lookup j source)
    → (is_some (lookup q (remove_each source paths tree)) ≡ true)
      ⊎ ((member q paths ≡ true) × (is_some (lookup q source) ≡ true))
    → is_some (lookup q source) ≡ true
there_before source paths tree q same (inl t) = removed_within source paths tree q same t
there_before source paths tree q same (inr (m, s)) = s

mixed_back :
    (source : Tree) (paths : List Text) (tree : Tree) (k : Text)
    → ((j : Text) → member j paths ≡ false → lookup j tree ≡ lookup j source)
    → mixed source paths (remove_each source paths tree) k ≡ lookup k source
unfolding mixed
mixed_back source paths tree k same = elim (Bool-cases (member k paths)) [
  | inl m ↦ elim (Option-cases (lookup k source)) [
    | inl e ↦ rw (m, e, lookup-remove_each source paths tree k, m, e) refl
    | inr (v, e) ↦ rw (m, e) refl
  ]
  | inr m ↦ rw (m, lookup-remove_each source paths tree k, m) (same k m)
]

-- A tree whose other paths are as they were, put back, is as it was, and no write is refused.
pub restore-back :
    (source : Tree) (paths : List Text) (tree : Tree)
    → Untangled source
    → ((k : Text) → member k paths ≡ false → lookup k tree ≡ lookup k source)
    → ((restore source paths tree).0 ≡ true)
      × ((k : Text) → lookup k (restore source paths tree).1 ≡ lookup k source)
unfolding restore Free Untangled
restore-back source paths tree u same =
    let wrote =
      put_each-Wrote source paths (remove_each source paths tree)
        (λ p q m s there. u p q s (there_before source paths tree q same there)) in
    (wrote.written, λ k. wrote.values k ∙ mixed_back source paths tree k same)

put_same :
    (source : Tree) (path value : Text) (tree : Tree) (k : Text)
    → lookup path source ≡ some value
    → lookup k tree ≡ lookup k source
    → lookup k (put path value tree).1 ≡ lookup k source
unfolding put
put_same source path value tree k e same = elim (Bool-cases (any (in_way path) (keys tree))) [
  | inl blocked ↦ rw (blocked) same
  | inr free ↦ elim (Bool-cases (text_eq path k)) [
    | inl at_k ↦
        rw (free, lookup-insert path k value tree, at_k)
          (sym (ap (λ j. lookup j source) (sym ((text_eq_iff path k).0 at_k)) ∙ e))
    | inr other ↦ rw (free, lookup-insert path k value tree, other) same
  ]
]

-- Whatever the writes come to, a path that has what the source has keeps it.
pub put_each_same :
    (source : Tree) (paths : List Text) (tree : Tree) (k : Text)
    → lookup k tree ≡ lookup k source
    → lookup k (put_each source paths tree).1 ≡ lookup k source
unfolding put_each
put_each_same source [] tree k same = same
put_each_same source (path ∷ paths) tree k same = elim (Option-cases (lookup path source)) [
  | inl e ↦ rw (e, put_each) (put_each_same source paths tree k same)
  | inr (value, e) ↦
      let after = put_same source path value tree k e same in
      rw (e, put_each)
        (written_or_not (put path value tree) (put_each source paths (put path value tree).1) k
          (lookup k source) after (put_each_same source paths (put path value tree).1 k after))
]
