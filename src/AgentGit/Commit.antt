-- ===== src/AgentGit/Commit.antt =====
-- The commit of nontainer/agentgit.py: what it takes and what it leaves out, the tree that it is made
-- from, and its record.
use nontainer.Prelude.{
  Text, Bool, true, false, List, Option, none, some, [], ◌∷◌, ◌++◌, if◌then◌else◌, ◌&&◌, not,
  lookup, member, is_some, is_empty, sorted_set, keep, any,
}
use nontainer.AgentGit.Trees.{Tree, in_way, put_each, remove_each}
use nontainer.AgentGit.Blob.{Blob}
use nontainer.AgentGit.Repo.{Repo, Info, commit_keys}
use nontainer.AgentGit.Changes.{Session, changes, base_tree, has_markers}

-- What a verb raises: `NotSupportedError`, the refusal of a session that is frozen, `WorkspaceError`
-- where there is nothing to commit, `CommitNotFoundError`, `ValueError`, the refusal of a write, a
-- failure of the store's commit, and `BookkeepingLost`.
pub data Raised : Type 0 where
  not_supported : Raised
  not_writable : Raised
  nothing_to_commit : Raised
  commit_not_found : Raised
  invalid : Raised
  in_the_way : Raised
  commit_failed : Raised
  bookkeeping_lost : Raised

pub data Outcome (A : Type 0) : Type 0 where
  done : A → Outcome A
  raised : Raised → Outcome A

-- What a commit takes, what it puts back, and the tree that it puts back to.
pub record Plan : Type 0 where
  pub files : List Text
  pub reverted : List Text
  pub base : Tree

-- The paths to take: the staged ones that differ, or all where nothing is staged.
unfoldable pub chosen : List Text → List Text → List Text
chosen [] modified = modified
chosen (p ∷ ps) modified = keep (λ path. member path (p ∷ ps)) modified

-- The paths left out that stand in the way of a path taken as the tree has it.
unfoldable pub tangled : Tree → Tree → List Text → List Text → List Text
tangled working base modified files =
    let present = keep (λ path. is_some (lookup path working)) files in
    keep
      (λ path. not (member path files) && (is_some (lookup path base) && any (in_way path) present))
      modified

unfoldable pub plan_of : Tree → Tree → List Text → List Text → Plan
plan_of working base modified files =
    let taken = sorted_set (files ++ tangled working base modified files) in
    record {
      files = taken;
      reverted = sorted_set (keep (λ path. not (member path taken)) modified);
      base = base;
    }

abbrev pub plan_from : Option Tree → List Text → Repo → Outcome Plan
plan_from none modified r = raised commit_not_found
plan_from (some base) modified r =
    let files = chosen r.blob.staged modified in
    if is_empty files
    then raised nothing_to_commit
    else done (plan_of r.working base modified files)

-- The part of `AgentGit.commit` before its first write.
unfoldable pub plan : Session → Repo → Outcome Plan
plan s r = elim (changes s r.blob.head r.blob.base r) [
  | none ↦ raised commit_not_found
  | some c ↦
      if is_empty c.paths
      then raised nothing_to_commit
      else plan_from (base_tree r.blob r) c.paths r
]

-- `_still_marked`
unfoldable pub still_marked : List Text → List Text → Tree → Tree → List Text
still_marked unresolved files live base =
    keep (λ path. has_markers (if member path files then lookup path live else lookup path base))
      unresolved

-- The agent's state with the composition closed.
unfoldable pub landed : Plan → Repo → Blob
landed p r =
    let marked = still_marked r.blob.unresolved p.files r.working p.base in
    let done = is_empty marked in
    record r.blob {
      staged = [];
      unresolved = marked;
      merge_source = if done then none else r.blob.merge_source;
      pre_merge = if done then none else r.blob.pre_merge;
    }

-- The tree that the commit is made from: what is put back, and then what is taken.
unfoldable pub written : Plan → Tree → Bool × Tree
written p working =
    let (ok, tree) = put_each p.base p.reverted (remove_each p.base p.reverted working) in
    let rest = put_each working p.files tree in if ok then rest else (false, tree)

abbrev pub as_commit : Option Text × Repo → Outcome Text × Repo
as_commit (none, r) = (raised commit_failed, r)
as_commit (some id, r) = (done id, r)

abbrev pub committed : Bool × Tree → Info → Plan → Repo → Outcome Text × Repo
committed (false, tree) info p r = (raised in_the_way, record r { working = tree })
committed (true, tree) info p r =
    as_commit (commit_keys info (p.files ++ p.reverted) (record r { working = tree }))

-- The part of `AgentGit.commit` that makes the agent's commit, or raises.
unfoldable pub attempt : Info → Plan → Repo → Outcome Text × Repo
attempt info p r = committed (written p r.working) info p r
