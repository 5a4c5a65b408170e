-- ===== src/AgentGit/Repo.antt =====
-- The session that nontainer/agentgit.py works on: its working tree, the agent's state, and the
-- store's commits, with the keyed commit of nontainer/providers/kvgit.py.
use nontainer.Prelude.{
  Text, Bool, List, Option, none, some, [], ◌∷◌, if◌then◌else◌, lookup, insert, erase, text_eq,
}
use nontainer.AgentGit.Trees.{Tree}
use nontainer.AgentGit.Blob.{Blob, fresh_blob}

-- A commit of the store, with the tree and the agent's state that it holds. `tool` is the tool of its
-- info, or an empty text; `message`, `files` and `virtual_parents` are those of an agent's commit.
pub record Entry : Type 0 where
  pub id : Text
  pub tool : Text
  pub message : Option Text
  pub files : List Text
  pub virtual_parents : List Text
  pub tree : Tree
  pub blob : Blob

-- The history begins with the newest commit, the store's head. `outcomes` says how the coming keyed
-- commits end: one lands under an id, or is refused, since another writer landed; those past its end
-- are refused.
pub record Repo : Type 0 where
  pub working : Tree
  pub blob : Blob
  pub history : List Entry
  pub outcomes : List (Option Text)
  pub indexed : Bool
  pub frozen : Bool

-- What the info of a keyed commit says.
pub record Info : Type 0 where
  pub tool : Text
  pub message : Option Text
  pub files : List Text
  pub virtual_parents : List Text

unfoldable pub entry_of : Text → List Entry → Option Entry
entry_of id [] = none
entry_of id (e ∷ es) = if text_eq e.id id then some e else entry_of id es

abbrev pub tree_in : Option Entry → Option Tree
tree_in none = none
tree_in (some e) = some e.tree

-- `files_at`, which raises where there is no such commit.
unfoldable pub files_at : Text → Repo → Option Tree
files_at id r = tree_in (entry_of id r.history)

abbrev pub head_id : List Entry → Option Text
head_id [] = none
head_id (e ∷ es) = some e.id

abbrev pub head_tree : List Entry → Tree
head_tree [] = []
head_tree (e ∷ es) = e.tree

abbrev pub head_blob : List Entry → Blob
head_blob [] = fresh_blob
head_blob (e ∷ es) = e.blob

-- A tree with the values that another has at the keys.
unfoldable pub overlay : List Text → Tree → Tree → Tree
overlay [] from tree = tree
overlay (k ∷ ks) from tree =
    overlay ks from (elim (lookup k from) [ none ↦ erase k tree | some v ↦ insert k v tree ])

abbrev pub entry_from : Text → Info → List Text → Repo → Entry
entry_from id info ks r = record {
  id = id;
  tool = info.tool;
  message = info.message;
  files = info.files;
  virtual_parents = info.virtual_parents;
  tree = overlay ks r.working (head_tree r.history);
  blob = r.blob;
}

abbrev pub landed_as : Text → Info → List Text → Repo → List (Option Text) → Repo
landed_as id info ks r outcomes = record r {
  outcomes = outcomes;
  history = entry_from id info ks r ∷ r.history;
}

abbrev pub keyed : List (Option Text) → Info → List Text → Repo → Option Text × Repo
keyed [] info ks r = (none, r)
keyed (none ∷ more) info ks r = (none, record r { outcomes = more })
keyed (some id ∷ more) info ks r = (some id, landed_as id info ks r more)

-- `commit_keys` of the paths and of the agent's state, which each call writes before: a key with
-- nothing pending holds what the store's head holds, so that it changes nothing. `none` where it
-- raises, and then nothing has changed.
unfoldable pub commit_keys : Info → List Text → Repo → Option Text × Repo
commit_keys info ks r = keyed r.outcomes info ks r

-- `refresh`: what is not committed is dropped.
unfoldable pub refresh : Repo → Repo
refresh r = record r { working = head_tree r.history; blob = head_blob r.history }
