-- ===== src/AgentGit/Examples.antt =====
-- The theorems on nontainer/agentgit.py at a session of a few files, and test runs.
use nontainer.Prelude.{
  Text, concat, true, false, List, Option, none, some, [], ◌∷◌, ◌≡◌, refl, sym, keep, arith, ◌≤◌,
  lookup, member, any, length, text_eq, starts_with, sort, sorted_set, distinct, sort_in, text_ltb,
  keys, insert, erase,
}
use nontainer.Values.{Fields, mapping}
use nontainer.AgentGit.Trees.{
  Tree, in_way, put, put_each, remove_each, restore, differ, differs, diff_paths,
}
use nontainer.AgentGit.Blob.{
  Blob, Raw, Json, IsJson, Tidy, fresh_blob, parse_blob, encode_blob, parse_blob-encode_blob,
  sort_tags, sort_tag_in,
}
use nontainer.AgentGit.Writes.{Untangled, any-Untangled}
use nontainer.AgentGit.Repo.{Repo, Entry, files_at, entry_of, overlay, commit_keys, refresh}
use nontainer.AgentGit.Changes.{
  Session, IsSession, changes, baseline, base_tree, tree_from, contains,
}
use nontainer.AgentGit.Commit.{
  Raised, Outcome, Plan, plan, plan_of, chosen, tangled, written, landed, still_marked, attempt,
}
use nontainer.AgentGit.Record.{commit, land, record_state, refusal}
use nontainer.AgentGit.Attempted.{Unchanged}
use nontainer.AgentGit.Failed.{commit-Unchanged}
use nontainer.AgentGit.Lost.{LostRecord, commit-LostRecord}
use nontainer.AgentGit.Log.{is_agent_commit, walk, log}
use nontainer.AgentGit.Graph.{chain, limited, log-chain, log_bounded}
use nontainer.AgentGit.Index.{
  unique, unique_after, head_files, indexable, check_paths, stage, unstage,
}
use nontainer.AgentGit.Staged.{Unstaged, stage-unstage}
use nontainer.AgentGit.Tags.{
  check_tag_name, is_hash, is_name, is_short_id, ends_with, expand_commit, resolve, tag,
}
use nontainer.AgentGit.Bookmarks.{Bookmarked, tag-resolve}
use nontainer.AgentGit.Resolved.{is_own, resolve-own}
use nontainer.AgentGit.CheckedOut.{CheckedOut}
use nontainer.AgentGit.Fork.{reset_for_fork}
use nontainer.AgentGit.Forked.{Fresh, reset_for_fork-Fresh}
use nontainer.AgentGit.Landed.{same_values}
use nontainer.AgentGit.Exact.{Settled, Composed, commit-Composed}

-- Where a directory stood at the agent's head the working tree has a file, which is staged; another
-- change is not.
abbrev at_x : Text
at_x = concat "/w/x"

abbrev at_y : Text
at_y = concat "/w/x/y"

abbrev at_b : Text
at_b = concat "/w/b"

abbrev old_tree : Tree
old_tree = (at_y, concat "1") ∷ (at_b, concat "1") ∷ []

abbrev new_tree : Tree
new_tree = (at_x, concat "2") ∷ (at_b, concat "2") ∷ []

abbrev everything : Session
everything = record { ignored = λ p. false; sees = λ p. true; dirty = λ r. true }

everything-IsSession : IsSession everything
everything-IsSession = record { clean = λ r e. absurd (cc) }

abbrev first_id : Text
first_id = concat "aaaaaaa1"

abbrev state : Blob
state = record fresh_blob { head = some first_id; staged = at_x ∷ [] }

-- The agent's commit, and a commit of the framework after it, which took everything.
abbrev first_commit : Entry
first_commit = record {
  id = first_id;
  tool = concat "ws-git";
  message = some (concat "first");
  files = at_y ∷ at_b ∷ [];
  virtual_parents = [];
  tree = old_tree;
  blob = fresh_blob;
}

abbrev turn_commit : Entry
turn_commit = record {
  id = concat "bbbbbbb2";
  tool = concat "turn";
  message = none;
  files = [];
  virtual_parents = [];
  tree = new_tree;
  blob = state;
}

abbrev repo : List (Option Text) → Repo
repo outcomes = record {
  working = new_tree;
  blob = state;
  history = turn_commit ∷ first_commit ∷ [];
  outcomes = outcomes;
  indexed = true;
  frozen = false;
}

abbrev second_id : Text
second_id = concat "ccccccc3"

abbrev third_id : Text
third_id = concat "ddddddd4"

abbrev the_plan : Plan
the_plan = record { files = at_x ∷ at_y ∷ []; reverted = at_b ∷ []; base = old_tree }

abbrev both_land : Repo
both_land = repo (some second_id ∷ some third_id ∷ [])

new_tree-Untangled : Untangled new_tree
unfolding in_way starts_with keys
new_tree-Untangled = any-Untangled new_tree refl

old_tree-Untangled : Untangled old_tree
unfolding in_way starts_with keys
old_tree-Untangled = any-Untangled old_tree refl

planned : plan everything both_land ≡ Outcome.done the_plan
unfolding plan changes baseline diff_paths differs differ lookup keys text_eq base_tree tree_from
    files_at entry_of plan_of chosen tangled in_way starts_with sorted_set sort distinct member
    sort_in text_ltb
planned = refl

both_land-Settled : Settled everything both_land old_tree
unfolding Settled differs
both_land-Settled k seen same = sym (same_values (lookup k old_tree) (lookup k new_tree) same)

commit-Composed_example :
    Composed everything both_land old_tree the_plan second_id third_id
      (commit everything (some (concat "second")) both_land)
unfolding refusal base_tree tree_from baseline files_at entry_of text_eq
commit-Composed_example =
    commit-Composed everything (some (concat "second")) both_land old_tree the_plan second_id
      third_id [] everything-IsSession refl refl planned refl new_tree-Untangled old_tree-Untangled
      (λ k j at_base there unseen. absurd (cc)) both_land-Settled refl refl

commit-Unchanged_example : Unchanged (repo []) (commit everything none (repo [])).1
unfolding commit refusal land record_state attempt written landed still_marked commit_keys refresh
    restore put_each remove_each put erase insert plan changes baseline diff_paths differs differ
    lookup keys text_eq base_tree tree_from files_at entry_of plan_of chosen tangled in_way
    starts_with sorted_set sort distinct member sort_in text_ltb
commit-Unchanged_example =
    commit-Unchanged everything none (repo []) Raised.commit_failed new_tree-Untangled refl
      (λ e. cc)

-- The agent's commit lands, and neither of its records does.
commit-LostRecord_example :
    LostRecord (repo (some second_id ∷ [])) (commit everything none (repo (some second_id ∷ [])))
unfolding commit refusal land record_state attempt written landed still_marked commit_keys refresh
    restore put_each remove_each put erase insert plan changes baseline diff_paths differs differ
    lookup keys text_eq base_tree tree_from files_at entry_of plan_of chosen tangled in_way
    starts_with sorted_set sort distinct member sort_in text_ltb overlay
commit-LostRecord_example = commit-LostRecord everything none (repo (some second_id ∷ [])) refl

-- A session that ignores what is named like a file of a build.
abbrev built : Text
built = concat "/w/b/out"

abbrev careful : Session
careful = record { ignored = λ p. starts_with built p; sees = λ p. true; dirty = λ r. true }

-- A directory with an ignored file in it where the commit has a file.
abbrev built_over : Repo
built_over = record (repo (some third_id ∷ [])) {
  working = (concat "/w/b/out", concat "3") ∷ (at_x, concat "2") ∷ [];
}

log-chain_example :
    log (some 5) both_land
    ≡ Outcome.done (
        limited
          (some 5)
          (keep is_agent_commit (chain 2 (some first_id) (turn_commit ∷ first_commit ∷ []))))
unfolding text_eq
log-chain_example = log-chain (some 5) both_land 2 refl (refl, (refl, tt)) (omega arith)

log_bounded_example : length (first_commit ∷ []) ≤ 1
unfolding log walk text_eq is_agent_commit member
log_bounded_example = log_bounded 1 both_land (first_commit ∷ []) refl

stage-unstage_example : Unstaged (at_x ∷ []) (at_b ∷ at_x ∷ at_b ∷ []) (
    unstage everything
      (at_b ∷ at_x ∷ at_b ∷ [])
      (stage everything (at_b ∷ at_x ∷ at_b ∷ []) both_land).1)
unfolding stage refusal unique unique_after check_paths head_files indexable files_at entry_of
    baseline text_eq member lookup
stage-unstage_example =
    stage-unstage everything (at_b ∷ at_x ∷ at_b ∷ []) both_land (at_b ∷ []) refl

-- Bytes that keep the mapping that they were dumped from.
abbrev kept : Json Fields
kept = record { dumps = λ d. d; loads = λ d. some (mapping d) }

kept-IsJson : IsJson kept
kept-IsJson = record { loads-dumps = λ d. refl }

abbrev bookmarked : Blob
bookmarked = record state { tags = (concat "a", first_id) ∷ (concat "v1.0", first_id) ∷ [] }

bookmarked-Tidy : Tidy bookmarked
unfolding sort sort_in sort_tags sort_tag_in text_ltb
bookmarked-Tidy = record { staged = refl; unresolved = refl; tags = refl }

parse_blob-encode_blob_example :
    parse_blob kept (Raw.stored (encode_blob kept bookmarked)) ≡ some bookmarked
parse_blob-encode_blob_example = parse_blob-encode_blob kept bookmarked kept-IsJson bookmarked-Tidy

abbrev tagged_repo : Repo
tagged_repo = record both_land { blob = bookmarked }

tag-resolve_example :
    Bookmarked
      (concat "v2.0")
      first_id
      tagged_repo
      (tag (concat "v2.0") (some (concat "aaaaaaa")) false tagged_repo).1
unfolding tag refusal check_tag_name is_hash is_name is_short_id ends_with contains starts_with
    lookup text_eq resolve expand_commit walk is_agent_commit member sorted_set sort distinct
    sort_in text_ltb
tag-resolve_example =
    tag-resolve (concat "v2.0") (some (concat "aaaaaaa")) false tagged_repo first_id
      (refl, (refl, tt)) refl refl

resolve-own_example : any (is_own first_id) (turn_commit ∷ first_commit ∷ []) ≡ true
unfolding resolve lookup text_eq is_hash is_short_id starts_with expand_commit walk is_agent_commit
    member sorted_set sort distinct sort_in text_ltb
resolve-own_example = resolve-own (concat "aaaaaaa") tagged_repo first_id refl refl refl

reset_for_fork-Fresh_example : Fresh everything turn_commit.id second_id (reset_for_fork both_land)
unfolding text_eq
reset_for_fork-Fresh_example =
    reset_for_fork-Fresh everything both_land turn_commit (first_commit ∷ []) second_id
      (some third_id ∷ []) everything-IsSession refl refl (λ k. refl) refl refl refl

-- An edit that the framework committed and that was then taken back is in the agent's next commit all
-- the same: at that path the working tree is the agent's head, and the commit is the store's.
abbrev taken_back : Repo
taken_back = record both_land {
  working = (at_y, concat "3") ∷ (at_b, concat "1") ∷ [];
  blob = record state { staged = [] };
}

abbrev second_tree : List Entry → Tree
second_tree [] = []
second_tree (e ∷ []) = []
second_tree (e ∷ f ∷ es) = f.tree

taken_back_committed :
    lookup at_b (second_tree (commit everything none taken_back).1.history) ≡ some (concat "2")
unfolding commit refusal land record_state attempt written landed still_marked commit_keys refresh
    restore put_each remove_each put erase insert plan changes baseline diff_paths differs differ
    lookup keys text_eq base_tree tree_from files_at entry_of plan_of chosen tangled in_way
    starts_with sorted_set sort distinct member sort_in text_ltb overlay
taken_back_committed = refl
