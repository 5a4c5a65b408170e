-- ===== src/AgentGit/CheckedOut.antt =====
-- The tree that a checkout of nontainer/agentgit.py leaves.
use nontainer.Prelude.{
  Text, concat, true, false, List, none, some, [], ◌∷◌, ◌++◌, ◌&&◌, not, ◌≡◌, lookup, member,
  is_some, starts_with,
}
use nontainer.AgentGit.Trees.{Tree}
use nontainer.AgentGit.Repo.{Repo, Entry}
use nontainer.AgentGit.Changes.{Session}
use nontainer.AgentGit.Commit.{Outcome}

-- A path that a checkout writes: one of the commit's that the session does not ignore, which the working
-- tree does not hold as the commit does.
abbrev pub Rewrites : Session → Tree → Tree → Text → Type 0
Rewrites s target working p =
    (s.ignored p ≡ false)
    × (is_some (lookup p target) ≡ true)
    × (lookup p target ≡ lookup p working → ⊥)

-- A checkout that landed: what each path holds; which files it says that it removed, just those that are
-- ignored, were there, and are there no more; and the agent's state.
pub record CheckedOut (s : Session) (target : Tree) (commit : Text) (r : Repo)
    (res : Outcome (Text × List Text) × Repo) : Type 0 where
  pub removed : List Text
  pub result : res.0 ≡ Outcome.done (commit, removed)
  pub removed_member :
      (k : Text)
      → member k removed
        ≡ (s.ignored k && (is_some (lookup k r.working) && not (is_some (lookup k res.1.working))))
  pub seen : (k : Text) → s.ignored k ≡ false → lookup k res.1.working ≡ lookup k target
  pub ignored_below :
      (p k : Text)
      → s.ignored k ≡ true
      → Rewrites s target r.working p
      → starts_with (p ++ concat "/") k ≡ true
      → lookup k res.1.working ≡ none
  pub ignored_kept :
      (k : Text)
      → s.ignored k ≡ true
      → ((p : Text) → Rewrites s target r.working p → starts_with (p ++ concat "/") k ≡ false)
      → lookup k res.1.working ≡ lookup k r.working
  pub head : res.1.blob.head ≡ some commit
  pub nothing_staged : res.1.blob.staged ≡ []
  pub no_merge : (res.1.blob.merge_source ≡ none) × (res.1.blob.pre_merge ≡ none)
  pub nothing_unresolved : res.1.blob.unresolved ≡ []
  pub base : res.1.blob.base ≡ r.blob.base
  pub stash : res.1.blob.stash ≡ r.blob.stash
  pub tags : res.1.blob.tags ≡ r.blob.tags
  pub entry : Entry
  pub history : res.1.history ≡ entry ∷ r.history
