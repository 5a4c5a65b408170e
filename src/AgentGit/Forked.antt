-- ===== src/AgentGit/Forked.antt =====
-- A fork's fresh state in nontainer/agentgit.py.
use nontainer.Prelude.{
  Text, concat, true, false, List, Option, none, some, [], ◌∷◌, ◌&&◌, if◌then◌else◌, ◌≡◌, refl, ap,
  ◌∙◌, lookup, member, is_empty, text_eq, text_eq_refl, arith,
}
use nontainer.AgentGit.Trees.{differ, differs}
use nontainer.AgentGit.Repo.{
  Repo, Entry, commit_keys, keyed, landed_as, files_at, entry_of, head_id,
}
use nontainer.AgentGit.Changes.{
  Session, IsSession, visible, Changes, changes, base_tree, tree_from, baseline,
}
use nontainer.AgentGit.Measured.{Finds, changes-Measured, differ_refl}
use nontainer.AgentGit.Commit.{Outcome, as_commit}
use nontainer.AgentGit.Record.{plumbing}
use nontainer.AgentGit.Fork.{reset_for_fork, some_commit, forked_blob}

-- A fork that was reset: its commit is its head; its agent has no head, nothing staged, no merge, no
-- stash and no tags; its base is where it was forked; and nothing has changed.
pub record Fresh (s : Session) (from id : Text) (res : Outcome (Option Text) × Repo) : Type 0 where
  pub result : res.0 ≡ Outcome.done (some id)
  pub no_head : res.1.blob.head ≡ none
  pub nothing_staged : res.1.blob.staged ≡ []
  pub no_merge : (res.1.blob.merge_source ≡ none) × (res.1.blob.pre_merge ≡ none)
  pub nothing_unresolved : res.1.blob.unresolved ≡ []
  pub no_stash : res.1.blob.stash ≡ none
  pub no_tags : res.1.blob.tags ≡ []
  pub base : res.1.blob.base ≡ some from
  pub head : head_id res.1.history ≡ some id
  pub found : Changes
  pub changes : changes s res.1.blob.head res.1.blob.base res.1 ≡ some found
  pub nothing : (k : Text) → member k found.paths ≡ false

abbrev forked : Repo → Text → List (Option Text) → Repo
forked r id os =
    landed_as id (plumbing (concat "ws-git.fork")) [] (record r { blob = forked_blob r }) os

forked-base_tree :
    (r : Repo) (id : Text) (os : List (Option Text)) (e : Entry) (es : List Entry)
    → r.history ≡ e ∷ es
    → is_empty e.id ≡ false
    → text_eq id e.id ≡ false
    → base_tree (forked r id os).blob (forked r id os) ≡ some e.tree
unfolding base_tree tree_from baseline files_at entry_of
forked-base_tree r id os e es h full other = rw (h) (rw (other, text_eq_refl e.id) refl)

reset_to :
    (r : Repo) (id : Text) (os : List (Option Text))
    → r.indexed ≡ true
    → r.outcomes ≡ some id ∷ os
    → reset_for_fork r ≡ (Outcome.done (some id), forked r id os)
unfolding reset_for_fork commit_keys
reset_to r id os i e =
    ap
      (λ b.
        if b
        then some_commit (
            as_commit (
              commit_keys (plumbing (concat "ws-git.fork")) [] (record r { blob = forked_blob r })))
        else (Outcome.done none, r))
      i
    ∙ ap
        (λ o. some_commit (
          as_commit
            (keyed o (plumbing (concat "ws-git.fork")) [] (record r { blob = forked_blob r }))))
        e

-- A fork in a store with an index, whose tree is the one at the head that it was made from, has, once it
-- is reset, no agent's head, nothing staged, no merge, no stash and no tags, the commit it was forked
-- from as its base, and nothing to commit, whatever its parent had staged or left uncommitted in its agent's graph,
-- where the store takes its commit under another id than that head's, which is not empty, and where the
-- provider calls the tree clean only if it is the one at the store's head.
pub reset_for_fork-Fresh :
    (s : Session) (r : Repo) (e : Entry) (es : List Entry) (id : Text) (os : List (Option Text))
    → IsSession s
    → r.indexed ≡ true
    → r.history ≡ e ∷ es
    → ((k : Text) → lookup k r.working ≡ lookup k e.tree)
    → is_empty e.id ≡ false
    → text_eq id e.id ≡ false
    → r.outcomes ≡ some id ∷ os
    → Fresh s e.id id (reset_for_fork r)
unfolding Finds differs
reset_for_fork-Fresh s r e es id os hs i h same full other outcomes =
    let (c, (found, measured)) =
      changes-Measured s (forked r id os) e.tree hs (forked-base_tree r id os e es h full other) in
    rw (reset_to r id os i outcomes) (record {
      result = refl;
      no_head = refl;
      nothing_staged = refl;
      no_merge = (refl, refl);
      nothing_unresolved = refl;
      no_stash = refl;
      no_tags = refl;
      base = ap head_id h;
      head = refl;
      found = c;
      changes = found;
      nothing = λ k.
          measured.paths k
          ∙ (ap (λ v. visible s k && differ (lookup k e.tree) v) (same k)
              ∙ ground (arith, differ_refl (lookup k e.tree)));
    })
