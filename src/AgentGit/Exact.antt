-- ===== src/AgentGit/Exact.antt =====
-- What a commit of nontainer/agentgit.py leaves to commit.
use nontainer.Prelude.{
  Text, true, false, List, Option, none, some, ◌∷◌, ◌++◌, if◌then◌else◌, ◌≡◌, refl, ap, ◌∙◌, ◌&&◌,
  lookup, member, member-append, is_some, is_empty, Bool-cases, inl, inr, arith, text_eq,
  text_eq_refl,
}
use nontainer.AgentGit.Trees.{Tree, in_way, differ, differs}
use nontainer.AgentGit.Writes.{Untangled}
use nontainer.AgentGit.Repo.{Repo, files_at, entry_of, tree_in, head_tree}
use nontainer.AgentGit.Changes.{
  Session, IsSession, visible, Changes, changes, base_tree, tree_from, baseline,
}
use nontainer.AgentGit.Commit.{Outcome, Plan, plan, landed}
use nontainer.AgentGit.Record.{commit, refusal}
use nontainer.AgentGit.Measured.{Finds, changes-Measured, differ_refl}
use nontainer.AgentGit.Planned.{Planned, PlannedFrom, is_modified, plan-Planned}
use nontainer.AgentGit.Taken.{taken_tree}
use nontainer.AgentGit.Landed.{Landed, commit-Landed}

-- At the paths that are not changed, the store's head holds what the agent's does.
unfoldable pub Settled : Session → Repo → Tree → Type 0
Settled s r base =
    (k : Text)
    → visible s k ≡ true
    → differs base r.working k ≡ false
    → lookup k (head_tree r.history) ≡ lookup k base

exact_tree :
    (s : Session) (r : Repo) (base : Tree) (p : Plan) (k : Text)
    → p.base ≡ base
    → Planned (is_modified s base r.working) r.working p
    → Settled s r base
    → visible s k ≡ true
    → (if member k (p.files ++ p.reverted)
        then taken_tree p r.working k
        else lookup k (head_tree r.history))
      ≡ (if member k p.files then lookup k r.working else lookup k base)
unfolding taken_tree is_modified differs Settled
exact_tree s r base p k is_base h settled seen = elim (Bool-cases (member k p.files)) [
  | inl m ↦ rw (member-append k p.files p.reverted, m) refl
  | inr m ↦ elim (Bool-cases (member k p.reverted)) [
    | inl left ↦ rw (member-append k p.files p.reverted, m, left, is_base) refl
    | inr other ↦
        rw (member-append k p.files p.reverted, m, other)
          (settled k seen (ground (arith, h.reverted k)))
  ]
]

tree_from_head :
    (id : Text) (start : Option Text) (r : Repo)
    → is_empty id ≡ false
    → tree_from (some id) start r ≡ files_at id r
unfolding tree_from baseline
tree_from_head id start r full =
    ap (λ b. elim (if b then start else some id) [ none ↦ none | some i ↦ files_at i r ]) full

-- The agent's head after a commit is the commit.
base_after :
    (r : Repo) (p : Plan) (id again : Text) (res : Outcome (Text × List Text) × Repo)
    (l : Landed r p id again res)
    → is_empty id ≡ false
    → text_eq again id ≡ false
    → base_tree res.1.blob res.1 ≡ some l.entry.tree
unfolding base_tree files_at entry_of
base_after r p id again res l full other =
    let second : text_eq l.restored.id id ≡ false = ap (λ i. text_eq i id) l.renamed ∙ other in
    let first : text_eq l.entry.id id ≡ true = ap (λ i. text_eq i id) l.named ∙ text_eq_refl id in
    ap (λ b. base_tree b res.1) l.blob
    ∙ (tree_from_head id (landed p r).base res.1 full
        ∙ (ap (λ es. tree_in (entry_of id es)) l.history ∙ rw (second, first) refl))

still_modified :
    (s : Session) (r : Repo) (base : Tree) (p : Plan) (k : Text) (tree : Option Text)
    → p.base ≡ base
    → Planned (is_modified s base r.working) r.working p
    → (visible s k ≡ true → tree ≡ (if member k p.files then lookup k r.working else lookup k base))
    → (visible s k && differ tree (lookup k r.working)) ≡ member k p.reverted
unfolding is_modified differs
still_modified s r base p k tree is_base h at_k = elim (Bool-cases (visible s k)) [
  | inr unseen ↦ ground (arith, h.reverted k)
  | inl seen ↦ elim (Bool-cases (member k p.files)) [
    | inl m ↦ rw (at_k seen, m) (ground (arith, differ_refl (lookup k r.working), h.reverted k))
    | inr m ↦ rw (at_k seen, m) (ground (arith, h.reverted k))
  ]
]

-- What is left to commit after a commit: exactly the paths that it put back.
pub record Leaves (s : Session) (p : Plan) (res : Outcome (Text × List Text) × Repo) : Type 0 where
  pub found : Changes
  pub changes : changes s res.1.blob.head res.1.blob.base res.1 ≡ some found
  pub paths : (k : Text) → member k found.paths ≡ member k p.reverted

Landed-Leaves :
    (s : Session) (r : Repo) (base : Tree) (p : Plan) (id again : Text)
    (res : Outcome (Text × List Text) × Repo)
    → IsSession s
    → is_empty id ≡ false
    → text_eq again id ≡ false
    → p.base ≡ base
    → Planned (is_modified s base r.working) r.working p
    → Settled s r base
    → Landed r p id again res
    → Leaves s p res
unfolding Finds differs
Landed-Leaves s r base p id again res hs full other is_base h settled l =
    let (c, (found, measured)) =
      changes-Measured s res.1 l.entry.tree hs (base_after r p id again res l full other) in
    record {
      found = c;
      changes = found;
      paths = λ k.
          measured.paths k
          ∙ (ap (λ v. visible s k && differ (lookup k l.entry.tree) v) (l.working k)
              ∙ still_modified s r base p k (lookup k l.entry.tree) is_base h
                  (λ seen. l.tree k ∙ exact_tree s r base p k is_base h settled seen));
    }

-- A commit that holds what it takes and the baseline's rest, and leaves what it puts back.
pub Composed :
    Session → Repo → Tree → Plan → Text → Text → Outcome (Text × List Text) × Repo → Type 0
Composed s r base p id again res =
    (l : Landed r p id again res) × (((k : Text)
        → visible s k ≡ true
        → lookup k l.entry.tree ≡ (if member k p.files then lookup k r.working else lookup k base))
      × Leaves s p res)

-- In a session that has an index and may be written, where the provider calls the tree clean only if it
-- is the one at the store's head: a commit whose plan is found lands, where the store takes its two
-- commits under ids that differ and the first of which is not empty, where no file of the working tree
-- or of the baseline stands in another's way, where no file that the session does not see stands in the
-- way of one of the baseline, and where the store's head holds what the agent's does at each path that
-- is seen and not changed. No write is refused and the working tree is what it was. Of the paths that
-- the session sees, the commit's tree holds the ones taken as the working tree has them and every other
-- one as the baseline has it, and what has changed since the commit is exactly the paths left out.
pub commit-Composed :
    (s : Session) (message : Option Text) (r : Repo) (base : Tree) (p : Plan) (id again : Text)
    (os : List (Option Text))
    → IsSession s
    → refusal r ≡ none
    → base_tree r.blob r ≡ some base
    → plan s r ≡ Outcome.done p
    → r.outcomes ≡ some id ∷ some again ∷ os
    → Untangled r.working
    → Untangled base
    → ((k j : Text)
        → is_some (lookup k base) ≡ true
        → is_some (lookup j r.working) ≡ true
        → visible s j ≡ false
        → in_way k j ≡ false)
    → Settled s r base
    → is_empty id ≡ false
    → text_eq again id ≡ false
    → Composed s r base p id again (commit s message r)
unfolding Composed PlannedFrom
commit-Composed s message r base p id again os hs allowed at_base planned outcomes u v hidden
      settled full other =
    let l =
      commit-Landed s message r base p id again os hs allowed at_base planned outcomes u v hidden in
    let (is_base, h) = plan-Planned s r base p hs u at_base planned in
    (
      l,
      (
        λ k seen. l.tree k ∙ exact_tree s r base p k is_base h settled seen,
        Landed-Leaves s r base p id again (commit s message r) hs full other is_base h settled l,
      ),
    )
