-- ===== src/AgentGit/Overlay.antt =====
-- What a keyed commit of nontainer/providers/kvgit.py makes of a tree.
use nontainer.Prelude.{
  Text, List, Option, [], ◌∷◌, if◌then◌else◌, ◌≡◌, refl, sym, ◌||◌, lookup, insert, erase,
  lookup-insert, lookup-erase, member, Option-cases, Bool-cases, inl, inr, arith, text_eq,
  text_eq_iff,
}
use nontainer.AgentGit.Trees.{Tree}
use nontainer.AgentGit.Repo.{overlay}

-- An overlay holds the keys as the one tree has them, and the others as the other has.
pub lookup-overlay :
    (ks : List Text) (from tree : Tree) (k : Text)
    → lookup k (overlay ks from tree) ≡ (if member k ks then lookup k from else lookup k tree)
unfolding overlay member
lookup-overlay [] from tree k = refl
lookup-overlay (j ∷ ks) from tree k = elim (Option-cases (lookup j from)) [
  | inl e ↦ rw (e, lookup-overlay ks from (erase j tree) k, lookup-erase j k tree) (step ks j k e)
  | inr (v, e) ↦
      rw (e, lookup-overlay ks from (insert j v tree) k, lookup-insert j k v tree) (step ks j k e)
]
  where
    step :
        (ks : List Text) (j k : Text) {v : Option Text}
        → lookup j from ≡ v
        → (if member k ks then lookup k from else if text_eq j k then v else lookup k tree)
          ≡ (if text_eq j k || member k ks then lookup k from else lookup k tree)
    step ks j k e = elim (Bool-cases (text_eq j k)) [
      | inl same ↦ rw (same, sym e, (text_eq_iff j k).0 same) (ground arith)
      | inr other ↦ rw (other) refl
    ]
