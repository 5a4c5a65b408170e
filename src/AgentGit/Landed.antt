-- ===== src/AgentGit/Landed.antt =====
-- A commit of nontainer/agentgit.py that lands.
use nontainer.Prelude.{
  Text, concat, Bool, true, false, List, Option, none, some, [], ◌∷◌, ◌++◌, if◌then◌else◌, ◌≡◌,
  refl, ap, ◌∙◌, lookup, member, is_some, Bool-cases, inl, inr, arith, text_eq_iff,
}
use nontainer.AgentGit.Trees.{Tree, in_way, restore, differ, differs}
use nontainer.AgentGit.Writes.{Untangled}
use nontainer.AgentGit.Restored.{restore-back}
use nontainer.AgentGit.Repo.{Repo, Info, Entry, commit_keys, keyed, landed_as, overlay, head_tree}
use nontainer.AgentGit.Changes.{Session, IsSession, visible, base_tree}
use nontainer.AgentGit.Commit.{Outcome, Plan, plan, landed, written, attempt, committed, as_commit}
use nontainer.AgentGit.Record.{
  record_state, recorded, returned, restoring, plumbing, kept_going, settled, land, commit,
  commit_info, refusal,
}
use nontainer.AgentGit.Attempted.{written_elsewhere}
use nontainer.AgentGit.Planned.{is_modified, plan-Planned, PlannedFrom}
use nontainer.AgentGit.Taken.{Clear, taken_tree, written_lem}
use nontainer.AgentGit.Overlay.{lookup-overlay}

-- The commit that lands: what it makes of the tree, and the repository afterwards.
after_commit : Text → List (Option Text) → Info → Plan → Repo → Repo
after_commit id os info p r =
    landed_as id info (p.files ++ p.reverted)
      (record r { blob = landed p r; working = (written p r.working).1 }) os

committed_done :
    (w : Bool × Tree) (id : Text) (os : List (Option Text)) (info : Info) (p : Plan) (r : Repo)
    → w.0 ≡ true
    → r.outcomes ≡ some id ∷ os
    → committed w info p r
      ≡ (Outcome.done id, landed_as id info (p.files ++ p.reverted) (record r { working = w.1 }) os)
unfolding commit_keys
committed_done (false, tree) id os info p r ok e = absurd (cc)
committed_done (true, tree) id os info p r ok e =
    ap (λ o. as_commit (keyed o info (p.files ++ p.reverted) (record r { working = tree }))) e

-- The record that follows: the work in progress is in the tree again.
after_record : Text → Text → List (Option Text) → Plan → Repo → Tree → Repo → Repo
after_record id again os p r tree r' =
    landed_as again (plumbing (concat "ws-git.restore")) p.reverted
      (record r' { working = tree; blob = record (landed p r) { head = some id } }) os

kept_going_done :
    (id again : Text) (os : List (Option Text)) (p : Plan) (r : Repo) (w : Bool × Tree) (r' : Repo)
    → w.0 ≡ true
    → r'.outcomes ≡ some again ∷ os
    → kept_going id p r w r' ≡ (Outcome.done (id, p.files), after_record id again os p r w.1 r')
unfolding record_state commit_keys after_record
kept_going_done id again os p r (false, tree) r' ok e = absurd (cc)
kept_going_done id again os p r (true, tree) r' ok e =
    ap
      (λ o.
        returned (id, p.files)
          (recorded
            (keyed o (plumbing (concat "ws-git.restore")) p.reverted
              (record r' { working = tree; blob = record (landed p r) { head = some id } }))
            (restoring id p r)))
      e

-- The outcome of a commit whose writes are not refused and whose two commits land.
land_done :
    (message : Option Text) (id again : Text) (os : List (Option Text)) (p : Plan) (r : Repo)
    → (written p r.working).0 ≡ true
    → Untangled r.working
    → r.outcomes ≡ some id ∷ some again ∷ os
    → (tree : Tree) × (((k : Text) → lookup k tree ≡ lookup k r.working)
        × (land message p r ≡ (
          Outcome.done (id, p.files),
          after_record id again os p r tree
              (after_commit id (some again ∷ os) (commit_info message r.blob.head p.files) p r),
        )))
unfolding land attempt after_commit
land_done message id again os p r ok u e =
    let info = commit_info message r.blob.head p.files in
    let w = written p r.working in
    let r' = after_commit id (some again ∷ os) info p r in
    let (back_ok, same) = restore-back r.working p.reverted w.1 u (written_elsewhere p r.working) in
    (
      (restore r.working p.reverted w.1).1,
      (
        same,
        ap (settled p r)
              (committed_done w id (some again ∷ os) info p (record r { blob = landed p r }) ok e)
            ∙ kept_going_done id again os p r (restore r.working p.reverted w.1) r' back_ok refl,
      ),
    )

-- A commit that landed under `id`, and its record after it.
pub record Landed (r : Repo) (p : Plan) (id again : Text) (res : Outcome (Text × List Text) × Repo)
    : Type 0 where
  pub entry : Entry
  pub restored : Entry
  pub result : res.0 ≡ Outcome.done (id, p.files)
  pub working : (k : Text) → lookup k res.1.working ≡ lookup k r.working
  pub blob : res.1.blob ≡ record (landed p r) { head = some id }
  pub history : res.1.history ≡ restored ∷ entry ∷ r.history
  pub named : entry.id ≡ id
  pub renamed : restored.id ≡ again
  pub files : entry.files ≡ p.files
  pub parents : entry.virtual_parents ≡ (elim r.blob.head [ none ↦ [] | some head ↦ head ∷ [] ])
  pub tree :
      (k : Text)
      → lookup k entry.tree ≡ (
          if member k (p.files ++ p.reverted)
          then taken_tree p r.working k
          else lookup k (head_tree r.history))
  pub restored_tree :
      (k : Text)
      → lookup k restored.tree
        ≡ (if member k p.reverted then lookup k r.working else lookup k entry.tree)

land-Landed :
    (message : Option Text) (id again : Text) (os : List (Option Text)) (p : Plan) (r : Repo)
    → (written p r.working).0 ≡ true
    → ((k : Text) → lookup k (written p r.working).1 ≡ taken_tree p r.working k)
    → Untangled r.working
    → r.outcomes ≡ some id ∷ some again ∷ os
    → Landed r p id again (land message p r)
unfolding after_commit after_record
land-Landed message id again os p r ok values u e =
    let (tree, (same, eq)) = land_done message id again os p r ok u e in
    let r' = after_commit id (some again ∷ os) (commit_info message r.blob.head p.files) p r in
    let committed_tree =
      overlay (p.files ++ p.reverted) (written p r.working).1 (head_tree r.history) in
    rw (eq) (record {
      entry = record {
        id = id;
        tool = concat "ws-git";
        message = message;
        files = p.files;
        virtual_parents = elim r.blob.head [ none ↦ [] | some head ↦ head ∷ [] ];
        tree = committed_tree;
        blob = landed p r;
      };
      restored = record {
        id = again;
        tool = concat "ws-git.restore";
        message = none;
        files = [];
        virtual_parents = [];
        tree = overlay p.reverted tree committed_tree;
        blob = record (landed p r) { head = some id };
      };
      result = refl;
      working = same;
      blob = refl;
      history = refl;
      named = refl;
      renamed = refl;
      files = refl;
      parents = refl;
      tree = λ k.
          lookup-overlay (p.files ++ p.reverted) (written p r.working).1 (head_tree r.history) k
          ∙ ap (λ v. if member k (p.files ++ p.reverted) then v else lookup k (head_tree r.history))
              (values k);
      restored_tree = λ k.
          lookup-overlay p.reverted tree committed_tree k
          ∙ ap (λ v. if member k p.reverted then v else lookup k committed_tree) (same k);
    })

pub same_values : (u v : Option Text) → differ u v ≡ false → u ≡ v
unfolding differ
same_values none none d = refl
same_values none (some v) d = absurd (cc)
same_values (some u) none d = absurd (cc)
same_values (some u) (some v) d = ap some ((text_eq_iff u v).0 (ground arith))

unhidden-Clear :
    (s : Session) (base working : Tree)
    → ((k j : Text)
        → is_some (lookup k base) ≡ true
        → is_some (lookup j working) ≡ true
        → visible s j ≡ false
        → in_way k j ≡ false)
    → Clear (is_modified s base working) working base
unfolding Clear is_modified differs
unhidden-Clear s base working hidden k j at_base there same = elim (Bool-cases (visible s j)) [
  | inr unseen ↦ inr (hidden k j at_base there unseen)
  | inl seen ↦
      inl (ap is_some (same_values (lookup j base) (lookup j working) (ground arith)) ∙ there)
]

-- A commit whose plan is found lands, where the store takes its two commits, where no file of the
-- working tree or of the baseline stands in another's way and where no file that the session does not
-- see stands in the way of one of the baseline. No write is refused, the working tree is what it was,
-- the agent's head is the commit, and the commit holds the paths taken as the tree has them, the other
-- changed paths as the baseline has them, and the rest as the store's head has it.
pub commit-Landed :
    (s : Session) (message : Option Text) (r : Repo) (base : Tree) (p : Plan) (id again : Text)
    (os : List (Option Text))
    → IsSession s
    → refusal r ≡ none
    → base_tree r.blob r ≡ some base
    → plan s r ≡ Outcome.done p
    → r.outcomes ≡ some id ∷ some again ∷ os
    → Untangled r.working
    → Untangled base
    → ((k j : Text)
        → is_some (lookup k base) ≡ true
        → is_some (lookup j r.working) ≡ true
        → visible s j ≡ false
        → in_way k j ≡ false)
    → Landed r p id again (commit s message r)
unfolding commit PlannedFrom
commit-Landed s message r base p id again os hs allowed at_base planned outcomes u v hidden =
    let (is_base, taken) = plan-Planned s r base p hs u at_base planned in
    let (ok, values) =
      written_lem p r.working (is_modified s base r.working) taken u (rw (is_base) v)
        (rw (is_base) (unhidden-Clear s base r.working hidden)) in
    rw (allowed, planned, commit) (land-Landed message id again os p r ok values u outcomes)
