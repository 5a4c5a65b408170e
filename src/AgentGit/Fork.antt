-- ===== src/AgentGit/Fork.antt =====
-- What nontainer/agentgit.py does on another session's branch: the fresh state of a fork, a stash, and
-- the reads of a session that is to be merged.
use nontainer.Prelude.{
  Text, concat, Bool, true, false, List, Option, none, some, [], if◌then◌else◌, not, Dict, lookup,
  is_some, is_empty, keep, sort, sorted_set,
}
use nontainer.AgentGit.Trees.{Tree, put_each, diff_paths}
use nontainer.AgentGit.Blob.{Blob, fresh_blob}
use nontainer.AgentGit.Repo.{Repo, entry_of, files_at, commit_keys, head_id, head_tree, head_blob}
use nontainer.AgentGit.Changes.{Session, baseline, has_markers}
use nontainer.AgentGit.Commit.{Raised, Outcome, as_commit}
use nontainer.AgentGit.Record.{plumbing}
use nontainer.AgentGit.Checkout.{erase_each}

abbrev pub some_commit : Outcome Text × Repo → Outcome (Option Text) × Repo
some_commit (Outcome.done id, r) = (Outcome.done (some id), r)
some_commit (Outcome.raised e, r) = (Outcome.raised e, r)

-- The state of a fork: fresh, but for where it began.
abbrev pub forked_blob : Repo → Blob
forked_blob r = record fresh_blob { base = head_id r.history }

-- `reset_for_fork`
unfoldable pub reset_for_fork : Repo → Outcome (Option Text) × Repo
reset_for_fork r =
    if r.indexed
    then some_commit (
        as_commit
          (commit_keys (plumbing (concat "ws-git.fork")) [] (record r { blob = forked_blob r })))
    else (Outcome.done none, r)

abbrev stash_tree : Tree → List Text → Tree → Bool × Tree
stash_tree source paths working =
    put_each source paths (erase_each (keep (λ p. not (is_some (lookup p source))) paths) working)

abbrev stash_written : Text → Text → List Text → Bool × Tree → Repo → Outcome Text × Repo
stash_written of message paths (false, tree) r =
    (Outcome.raised Raised.in_the_way, record r { working = tree })
stash_written of message paths (true, tree) r = as_commit (
    commit_keys (plumbing (concat "ws-git.stash")) paths
      (record r { working = tree; blob = record r.blob { stash = some (of, message) } }))

-- `write_stash` of the paths, each as the work in progress has it; a path to delete is there.
unfoldable pub write_stash : Text → Text → Tree → List Text → Repo → Outcome Text × Repo
write_stash of message source paths r =
    stash_written of message paths (stash_tree source (sort paths) r.working) r

-- `key_at` of the agent's state at a commit, or at the branch's head.
abbrev blob_at : Option Text → Repo → Option Blob
blob_at none r = some (head_blob r.history)
blob_at (some id) r = elim (entry_of id r.history) [ none ↦ none | some e ↦ some e.blob ]

-- `tags_at`
unfoldable pub tags_at : Repo → Dict Text
tags_at r = if r.indexed then (head_blob r.history).tags else []

-- `stash_at`
unfoldable pub stash_at : Repo → Option (Text × Text)
stash_at r = if r.indexed then (head_blob r.history).stash else none

-- `AgentGit.source_head`
unfoldable pub source_head : Repo → Option Text
source_head r = head_id r.history

-- `AgentGit.source_commit`, at the branch's head.
unfoldable pub source_commit : Repo → Option Text
source_commit r = baseline (head_blob r.history).head (source_head r)

-- `AgentGit.source_began`
unfoldable pub source_began : Option Text → Repo → Option (Option Text)
source_began head r = elim (blob_at head r) [ none ↦ none | some b ↦ some b.base ]

abbrev unlike : Session → Option Tree → Tree → Option (List Text)
unlike s none tree = none
unlike s (some taken) tree =
    some (sorted_set (keep (λ p. not (s.ignored p)) (diff_paths taken tree)))

-- `AgentGit.source_uncommitted`, at the branch's head.
unfoldable pub source_uncommitted : Session → Repo → Option (List Text)
source_uncommitted s r = elim (head_blob r.history).head [
  | none ↦ some []
  | some virtual ↦ unlike s (files_at virtual r) (head_tree r.history)
]

abbrev still_unresolved : Blob → Option Tree → Option (Option Text × List Text)
still_unresolved b none = none
still_unresolved b (some taken) =
    let marked = keep (λ p. has_markers (lookup p taken)) b.unresolved in
    some (if is_empty marked then (none, []) else (b.merge_source, marked))

-- `AgentGit.source_unresolved`, at the branch's head.
unfoldable pub source_unresolved : Repo → Option (Option Text × List Text)
source_unresolved r =
    let b = head_blob r.history in
    if is_empty b.unresolved
    then some (none, [])
    else (elim (source_commit r) [ none ↦ none | some id ↦ still_unresolved b (files_at id r) ])
