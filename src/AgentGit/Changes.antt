-- ===== src/AgentGit/Changes.antt =====
-- What the agent has changed, in nontainer/agentgit.py: its working tree against its own head, the
-- outstanding merge, and the status that reports both.
use nontainer.Prelude.{
  Text, concat, Bool, false, List, Option, none, some, [], ◌∷◌, if◌then◌else◌, ◌||◌, ◌&&◌, not, ◌≡◌,
  lookup, keys, member, text_eq, is_some, is_empty, sorted_set, keep, starts_with,
}
use nontainer.AgentGit.Trees.{Tree, diff_paths}
use nontainer.AgentGit.Blob.{Blob}
use nontainer.AgentGit.Repo.{Repo, files_at, head_id, head_tree}

-- What the workspace and the provider answer for a session: which paths are ignored, which ones its
-- view shows, which ones are directories, and whether something is not committed.
pub record Session : Type 0 where
  pub ignored : Text → Bool
  pub sees : Text → Bool
  pub dirty : Repo → Bool

-- `dirty` is the provider's: where it says no, the working tree is the one at the store's head.
pub record IsSession (s : Session) : Type 0 where
  pub clean :
      (r : Repo)
      → s.dirty r ≡ false
      → (k : Text) → lookup k (head_tree r.history) ≡ lookup k r.working

-- `_visible`, of one path.
abbrev pub visible : Session → Text → Bool
visible s path = not (s.ignored path) && s.sees path

-- `head or base`, which passes over an empty text too.
unfoldable pub baseline : Option Text → Option Text → Option Text
baseline none base = base
baseline (some head) base = if is_empty head then base else some head

pub record Changes : Type 0 where
  pub paths : List Text
  pub added : List Text
  pub removed : List Text

abbrev pub no_changes : Changes
no_changes = record { paths = []; added = []; removed = [] }

-- The provider's `working_diff` from a tree, of the paths that the session sees.
abbrev pub changes_since : Session → Tree → Tree → Changes
changes_since s base working =
    let paths = keep (visible s) (diff_paths base working) in
    record {
      paths = paths;
      added = keep (λ path. not (is_some (lookup path base))) paths;
      removed = keep (λ path. not (is_some (lookup path working))) paths;
    }

abbrev pub new_files : Session → Tree → Changes
new_files s working =
    let paths = keep (visible s) (keys working) in
    record { paths = paths; added = paths; removed = [] }

abbrev pub same_id : Text → Option Text → Bool
same_id head none = false
same_id head (some id) = text_eq head id

abbrev pub changes_from : Session → Text → Repo → Option Changes
changes_from s head r =
    if same_id head (head_id r.history) && not (s.dirty r)
    then some no_changes
    else (elim (files_at head r) [
      | none ↦ none
      | some base ↦ some (changes_since s base r.working)
    ])

-- `_changes`; `none` where the store has no such commit, which raises.
unfoldable pub changes : Session → Option Text → Option Text → Repo → Option Changes
changes s none none r = some (new_files s r.working)
changes s head base r = elim (baseline head base) [ none ↦ none | some id ↦ changes_from s id r ]

unfoldable pub tree_from : Option Text → Option Text → Repo → Option Tree
tree_from none none r = some []
tree_from head base r = elim (baseline head base) [ none ↦ none | some id ↦ files_at id r ]

-- The tree that the agent's work is measured from.
unfoldable pub base_tree : Blob → Repo → Option Tree
base_tree b r = tree_from b.head b.base r

unfoldable pub contains : Text → Text → Bool
contains needle [] = is_empty needle
contains needle (c ∷ t) = starts_with needle (c ∷ t) || contains needle t

-- `_has_markers`
unfoldable pub has_markers : Option Text → Bool
has_markers none = false
has_markers (some v) = contains (concat "<<<<<<< ") v

-- `_merge_context`
unfoldable pub merge_context : Repo → Option Text × List Text
merge_context r =
    let unresolved = keep (λ path. has_markers (lookup path r.working)) r.blob.unresolved in
    if is_empty unresolved then (none, []) else (r.blob.merge_source, unresolved)

-- `WorkspaceStatus` of nontainer/protocol.py, less the name of the branch.
pub record WorkspaceStatus : Type 0 where
  pub staged : List Text
  pub unstaged : List Text
  pub merge_source : Option Text
  pub merge_unresolved : List Text
  pub added : List Text
  pub removed : List Text

abbrev status_of : Changes → Repo → WorkspaceStatus
status_of c r =
    let (source, unresolved) = merge_context r in
    record {
      staged = sorted_set (keep (λ path. member path r.blob.staged) c.paths);
      unstaged = sorted_set (keep (λ path. not (member path r.blob.staged)) c.paths);
      merge_source = source;
      merge_unresolved = unresolved;
      added = sorted_set c.added;
      removed = sorted_set c.removed;
    }

-- `AgentGit.status`; `none` where it raises: the provider has no index, or not the agent's head.
unfoldable pub status : Session → Repo → Option WorkspaceStatus
status s r =
    if r.indexed
    then (elim (changes s r.blob.head r.blob.base r) [
      | none ↦ none
      | some c ↦ some (status_of c r)
    ])
    else none
