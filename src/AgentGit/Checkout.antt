-- ===== src/AgentGit/Checkout.antt =====
-- The checkout of nontainer/agentgit.py, and the merges that it records and aborts.
use nontainer.Prelude.{
  Text, concat, Bool, true, false, List, Option, none, some, [], ◌∷◌, ◌++◌, if◌then◌else◌, ◌&&◌,
  not, lookup, erase, keys, member, is_some, is_empty, keep, sort, sorted_set, any, starts_with,
}
use nontainer.AgentGit.Trees.{Tree, restore, put_each, diff_paths}
use nontainer.AgentGit.Blob.{Blob}
use nontainer.AgentGit.Repo.{Repo, Entry, entry_of}
use nontainer.AgentGit.Changes.{Session, merge_context}
use nontainer.AgentGit.Commit.{Raised, Outcome}
use nontainer.AgentGit.Record.{Keeping, record_state, returned, plumbing, refusal}
use nontainer.AgentGit.Log.{is_agent_commit}

-- What a checkout removes: the agent's files that the commit has not, and the ignored ones that stand
-- where it writes; and the paths that it writes.
pub record Rewrite : Type 0 where
  pub gone : List Text
  pub in_way : List Text
  pub changed : List Text

abbrev pub touched : Rewrite → List Text
touched w = w.gone ++ (w.in_way ++ w.changed)

-- Whether a path is below a directory.
abbrev pub below : Text → Text → Bool
below directory path = starts_with (directory ++ concat "/") path

-- `_ignored_in_way`
unfoldable pub ignored_in_way : Session → List Text → Tree → List Text
ignored_in_way s changed working =
    sorted_set (keep (λ q. s.ignored q && any (λ p. below p q) changed) (keys working))

unfoldable pub rewrite : Session → Tree → Tree → Rewrite
rewrite s target working =
    let diff = keep (λ p. not (s.ignored p)) (diff_paths target working) in
    let changed = sorted_set (keep (λ p. is_some (lookup p target)) diff) in
    record {
      gone = sorted_set (keep (λ p. not (is_some (lookup p target))) diff);
      in_way = ignored_in_way s changed working;
      changed = changed;
    }

-- `fs.remove` of each of the paths.
unfoldable pub erase_each : List Text → Tree → Tree
erase_each [] tree = tree
erase_each (p ∷ ps) tree = erase_each ps (erase p tree)

-- A tree's files at the paths.
unfoldable pub only : List Text → Tree → Tree
only ks [] = []
only ks ((k, v) ∷ tree) = let rest = only ks tree in if member k ks then (k, v) ∷ rest else rest

abbrev pub checked_out : Text → Blob → Blob
checked_out commit b = record b {
  head = some commit;
  staged = [];
  merge_source = none;
  unresolved = [];
  pre_merge = none;
}

abbrev pub checkout_record : Text → Rewrite → Tree → Blob → Keeping
checkout_record commit w target b = record {
  info = plumbing (concat "ws-git.checkout");
  paths = touched w;
  source = only w.changed target;
  state = checked_out commit b;
  landed = false;
}

-- A checkout that failed: the tree and the index go back.
abbrev pub gone_back : Raised → Bool × Tree → Repo → Repo → Outcome (Text × List Text) × Repo
gone_back e (false, tree) r r' = (Outcome.raised Raised.in_the_way, record r' { working = tree })
gone_back e (true, tree) r r' = (Outcome.raised e, record r' { working = tree; blob = r.blob })

abbrev pub kept_or_back :
    Text → Rewrite → Repo → Outcome Unit × Repo → Outcome (Text × List Text) × Repo
kept_or_back commit w r (Outcome.done u, r') = (Outcome.done (commit, w.in_way), r')
kept_or_back commit w r (Outcome.raised e, r') =
    gone_back e (restore r.working (touched w) r'.working) r r'

abbrev pub rewritten :
    Text → Rewrite → Tree → Repo → Bool × Tree → Outcome (Text × List Text) × Repo
rewritten commit w target r (false, tree) =
    gone_back Raised.in_the_way (restore r.working (touched w) tree) r (record r { working = tree })
rewritten commit w target r (true, tree) =
    kept_or_back commit w r
      (record_state (checkout_record commit w target r.blob) (record r { working = tree }))

abbrev pub rewrite_to : Text → Rewrite → Tree → Repo → Outcome (Text × List Text) × Repo
rewrite_to commit w target r =
    rewritten commit w target r
      (put_each target w.changed (erase_each (w.gone ++ w.in_way) r.working))

abbrev pub checkout_at : Session → Text → Option Entry → Repo → Outcome (Text × List Text) × Repo
checkout_at s commit none r = (Outcome.raised Raised.commit_not_found, r)
checkout_at s commit (some e) r =
    if is_agent_commit e
    then rewrite_to commit (rewrite s e.tree r.working) e.tree r
    else (Outcome.raised Raised.invalid, r)

-- `AgentGit.checkout`, with the ignored files that it removed.
unfoldable pub checkout : Session → Text → Repo → Outcome (Text × List Text) × Repo
checkout s commit r = elim (refusal r) [
  | some e ↦ (Outcome.raised e, r)
  | none ↦ checkout_at s commit (entry_of commit r.history) r
]

abbrev pub merged_state : Text → Text → List Text → Blob → Blob
merged_state source commit marked b =
    let clean = is_empty marked in
    record b {
      head = some commit;
      merge_source = if clean then none else some source;
      unresolved = marked;
      pre_merge = if clean then none else b.head;
    }

-- `AgentGit.record_merge`
unfoldable pub record_merge : Text → Text → List Text → Repo → Outcome (List Text) × Repo
record_merge source commit conflicts r =
    if r.indexed
    then returned (sort conflicts) (
        record_state
          (record {
            info = plumbing (concat "ws-git.merge-record");
            paths = [];
            source = [];
            state = merged_state source commit (sort conflicts) r.blob;
            landed = true;
          })
          r)
    else (Outcome.raised Raised.not_supported, r)

abbrev pub aborted : Session → Option Text → Option Text → Repo → Outcome (Text × List Text) × Repo
aborted s none before r = (Outcome.raised Raised.invalid, r)
aborted s (some source) none r = (Outcome.raised Raised.invalid, r)
aborted s (some source) (some before) r = checkout s before r

-- `AgentGit.abort_merge`, less the name of the source that it returns.
unfoldable pub abort_merge : Session → Repo → Outcome (Text × List Text) × Repo
abort_merge s r = elim (refusal r) [
  | some e ↦ (Outcome.raised e, r)
  | none ↦ aborted s (merge_context r).0 r.blob.pre_merge r
]
