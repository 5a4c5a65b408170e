-- ===== src/AgentGit/Index.antt =====
-- The agent's index in nontainer/agentgit.py: staging paths, unstaging them and dropping them all.
use nontainer.Prelude.{
  Text, Bool, true, false, List, Option, none, some, [], ◌∷◌, ◌++◌, if◌then◌else◌, ◌||◌, ◌&&◌, not,
  lookup, member, is_some, is_empty, sorted_set, keep,
}
use nontainer.AgentGit.Trees.{Tree}
use nontainer.AgentGit.Blob.{Blob}
use nontainer.AgentGit.Repo.{Repo, files_at}
use nontainer.AgentGit.Changes.{Session, baseline}
use nontainer.AgentGit.Commit.{Raised, Outcome}
use nontainer.AgentGit.Record.{refusal}

-- `list(dict.fromkeys(paths))`, past the ones that were met.
unfoldable pub unique_after : List Text → List Text → List Text
unique_after met [] = []
unique_after met (p ∷ ps) = elim (member p met) [
  | true ↦ unique_after met ps
  | false ↦ p ∷ unique_after (p ∷ met) ps
]

-- `_unique`
unfoldable pub unique : List Text → List Text
unique ps = unique_after [] ps

-- The files at the agent's head, or at the base of a fork.
unfoldable pub head_files : Blob → Repo → Option Tree
head_files b r = elim (baseline b.head b.base) [ none ↦ some [] | some id ↦ files_at id r ]

-- Whether a path can be staged: it is not ignored, and it is a file of the working tree or of the head
-- that the session sees.
unfoldable pub indexable : Session → Tree → Tree → Text → Bool
indexable s working head path =
    not (s.ignored path)
    && (s.sees path && (is_some (lookup path working) || is_some (lookup path head)))

-- `_check_paths`; `none` where it raises nothing.
unfoldable pub check_paths : Session → List Text → Repo → Option Raised
check_paths s paths r = elim (head_files r.blob r) [
  | none ↦ some Raised.commit_not_found
  | some head ↦
      if is_empty (keep (λ path. not (indexable s r.working head path)) paths)
      then none
      else some Raised.invalid
]

abbrev pub with_staged : List Text → Repo → Repo
with_staged staged r = record r { blob = record r.blob { staged = staged } }

abbrev pub staged_new : List Text → Repo → Outcome (List Text) × Repo
staged_new paths r =
    let added = keep (λ p. not (member p r.blob.staged)) paths in
    if is_empty added
    then (Outcome.done [], r)
    else (Outcome.done added, with_staged (sorted_set (r.blob.staged ++ paths)) r)

abbrev pub staged_less : List Text → Repo → Outcome (List Text) × Repo
staged_less paths r =
    let removed = keep (λ p. member p r.blob.staged) paths in
    if is_empty removed then (Outcome.done [], r) else (
      Outcome.done removed,
      with_staged (sorted_set (keep (λ p. not (member p removed)) r.blob.staged)) r,
    )

-- A verb on paths, once they are unique: nothing to do for none, and no unknown one.
abbrev pub on_paths :
    (List Text → Repo → Outcome (List Text) × Repo)
    → Session
    → List Text
    → Repo
    → Outcome (List Text) × Repo
on_paths verb s paths r = elim (refusal r) [
  | some e ↦ (Outcome.raised e, r)
  | none ↦
      if is_empty paths
      then (Outcome.done [], r)
      else (elim (check_paths s paths r) [ some e ↦ (Outcome.raised e, r) | none ↦ verb paths r ])
]

-- `AgentGit.stage`
unfoldable pub stage : Session → List Text → Repo → Outcome (List Text) × Repo
stage s paths r = on_paths staged_new s (unique paths) r

-- `AgentGit.unstage`
unfoldable pub unstage : Session → List Text → Repo → Outcome (List Text) × Repo
unstage s paths r = on_paths staged_less s (unique paths) r

-- `AgentGit.discard`
unfoldable pub discard : Repo → Outcome Unit × Repo
discard r = elim (refusal r) [
  | some e ↦ (Outcome.raised e, r)
  | none ↦ (Outcome.done tt, if is_empty r.blob.staged then r else with_staged [] r)
]
