-- ===== src/AgentGit/Record.antt =====
-- How nontainer/agentgit.py records what a verb did, and the whole of its commit.
use nontainer.Prelude.{
  Text, concat, Bool, true, false, List, Option, none, some, [], ◌∷◌, if◌then◌else◌, not,
}
use nontainer.AgentGit.Trees.{Tree, restore}
use nontainer.AgentGit.Blob.{Blob}
use nontainer.AgentGit.Repo.{Repo, Info, commit_keys, refresh, head_blob}
use nontainer.AgentGit.Changes.{Session}
use nontainer.AgentGit.Commit.{Raised, Outcome, Plan, plan, landed, attempt}

-- The verb's state and the content of the paths it touched, with the keys of its record. `landed` is
-- whether a commit of the agent's landed before.
pub record Keeping : Type 0 where
  pub info : Info
  pub paths : List Text
  pub source : Tree
  pub state : Blob
  pub landed : Bool

abbrev pub lose : Raised → Keeping → Repo → Outcome Unit × Repo
lose e k r =
    if k.landed
    then (Outcome.raised Raised.bookkeeping_lost, record r { blob = head_blob r.history })
    else (Outcome.raised e, r)

abbrev pub recorded_again : Option Text × Repo → Keeping → Outcome Unit × Repo
recorded_again (some id, r) k = (Outcome.done tt, r)
recorded_again (none, r) k = lose Raised.commit_failed k r

abbrev pub retry : Bool × Tree → Keeping → Repo → Outcome Unit × Repo
retry (false, tree) k r = lose Raised.in_the_way k (record r { working = tree })
retry (true, tree) k r =
    recorded_again (commit_keys k.info k.paths (record r { working = tree; blob = k.state })) k

abbrev pub recorded : Option Text × Repo → Keeping → Outcome Unit × Repo
recorded (some id, r) k = (Outcome.done tt, r)
recorded (none, r) k = retry (restore k.source k.paths (refresh r).working) k (refresh r)

-- `_record`: one commit of the state, and where it fails, once more over what the store holds.
unfoldable pub record_state : Keeping → Repo → Outcome Unit × Repo
record_state k r = recorded (commit_keys k.info k.paths (record r { blob = k.state })) k

abbrev pub commit_info : Option Text → Option Text → List Text → Info
commit_info message head files = record {
  tool = concat "ws-git";
  message = message;
  files = files;
  virtual_parents = elim head [ none ↦ [] | some id ↦ id ∷ [] ];
}

abbrev pub plumbing : Text → Info
plumbing tool = record { tool = tool; message = none; files = []; virtual_parents = [] }

abbrev pub returned : {A : Type 0} → A → Outcome Unit × Repo → Outcome A × Repo
returned a (Outcome.done u, r) = (Outcome.done a, r)
returned a (Outcome.raised e, r) = (Outcome.raised e, r)

-- The record of a commit that landed: the new head, and the paths that were put back.
abbrev pub restoring : Text → Plan → Repo → Keeping
restoring id p r = record {
  info = plumbing (concat "ws-git.restore");
  paths = p.reverted;
  source = r.working;
  state = record (landed p r) { head = some id };
  landed = true;
}

abbrev pub kept_going : Text → Plan → Repo → Bool × Tree → Repo → Outcome (Text × List Text) × Repo
kept_going id p r (false, tree) r' =
    (Outcome.raised Raised.in_the_way, record r' { working = tree })
kept_going id p r (true, tree) r' =
    returned (id, p.files) (record_state (restoring id p r) (record r' { working = tree }))

abbrev pub undone : Raised → Repo → Bool × Tree → Repo → Outcome (Text × List Text) × Repo
undone e r (false, tree) r' = (Outcome.raised Raised.in_the_way, record r' { working = tree })
undone e r (true, tree) r' = (Outcome.raised e, record r' { working = tree; blob = r.blob })

-- What follows the agent's commit: the work in progress is put back, and the commit recorded or, where
-- it failed, the composition opened again.
abbrev pub settled : Plan → Repo → Outcome Text × Repo → Outcome (Text × List Text) × Repo
settled p r (Outcome.done id, r') = kept_going id p r (restore r.working p.reverted r'.working) r'
settled p r (Outcome.raised e, r') = undone e r (restore r.working p.reverted r'.working) r'

-- The part of `AgentGit.commit` from its first write on.
unfoldable pub land : Option Text → Plan → Repo → Outcome (Text × List Text) × Repo
land message p r =
    settled p r
      (attempt (commit_info message r.blob.head p.files) p (record r { blob = landed p r }))

abbrev pub landing : Option Text → Outcome Plan → Repo → Outcome (Text × List Text) × Repo
landing message (Outcome.raised e) r = (Outcome.raised e, r)
landing message (Outcome.done p) r = land message p r

-- `_writable`; `none` where it lets the verb go on.
unfoldable pub refusal : Repo → Option Raised
refusal r =
    if not r.indexed
    then some Raised.not_supported
    else if r.frozen
    then some Raised.not_writable
    else none

-- `AgentGit.commit`
unfoldable pub commit : Session → Option Text → Repo → Outcome (Text × List Text) × Repo
commit s message r = elim (refusal r) [
  | some e ↦ (Outcome.raised e, r)
  | none ↦ landing message (plan s r) r
]
