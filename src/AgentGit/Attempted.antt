-- ===== src/AgentGit/Attempted.antt =====
-- What the attempt at a commit of nontainer/agentgit.py leaves.
use nontainer.Prelude.{
  Text, Bool, true, false, List, Option, none, some, [], ◌∷◌, ◌++◌, ◌≡◌, refl, ap, ◌∙◌, lookup,
  member,
}
use nontainer.AgentGit.Trees.{Tree, put_each, remove_each}
use nontainer.AgentGit.Writes.{lookup-remove_each}
use nontainer.AgentGit.Restored.{put_each_others, put_each_same, written_or_not}
use nontainer.AgentGit.Repo.{Repo, Info, Entry, commit_keys, keyed}
use nontainer.AgentGit.Commit.{Raised, Outcome, Plan, written, attempt, committed, as_commit}

-- Off the paths that are put back, what is written leaves every file as it was.
pub written_elsewhere :
    (p : Plan) (working : Tree) (k : Text)
    → member k p.reverted ≡ false
    → lookup k (written p working).1 ≡ lookup k working
unfolding written
written_elsewhere p working k m =
    let removed = remove_each p.base p.reverted working in
    let back = put_each p.base p.reverted removed in
    let kept : lookup k removed ≡ lookup k working =
      lookup-remove_each p.base p.reverted working k ∙ rw (m) refl in
    let put : lookup k back.1 ≡ lookup k working =
      put_each_others p.base p.reverted removed k m ∙ kept in
    written_or_not back (put_each working p.files back.1) k (lookup k working) put
      (put_each_same working p.files back.1 k put)

-- The files, the agent's state and the history are those of another repository.
pub record Unchanged (r r' : Repo) : Type 0 where
  pub working : (k : Text) → lookup k r'.working ≡ lookup k r.working
  pub blob : r'.blob ≡ r.blob
  pub history : r'.history ≡ r.history

pub keyed-working :
    (os : List (Option Text)) (info : Info) (ks : List Text) (r : Repo)
    → (keyed os info ks r).1.working ≡ r.working
keyed-working [] info ks r = refl
keyed-working (none ∷ os) info ks r = refl
keyed-working (some id ∷ os) info ks r = refl

pub keyed_refused :
    (os : List (Option Text)) (info : Info) (ks : List Text) (r : Repo)
    → (keyed os info ks r).0 ≡ none
    → (keyed os info ks r).1.history ≡ r.history
keyed_refused [] info ks r e = refl
keyed_refused (none ∷ os) info ks r e = refl
keyed_refused (some id ∷ os) info ks r e = absurd (cc)

-- How the attempt at a commit ends: off the paths put back no file has changed, and where it raises
-- the history has not.
pub record Attempted (p : Plan) (r : Repo) (res : Outcome Text × Repo) : Type 0 where
  pub elsewhere :
      (k : Text) → member k p.reverted ≡ false → lookup k res.1.working ≡ lookup k r.working
  pub history : (e : Raised) → res.0 ≡ Outcome.raised e → res.1.history ≡ r.history

as_commit-working : (c : Option Text × Repo) → (as_commit c).1.working ≡ c.1.working
as_commit-working (none, r) = refl
as_commit-working (some id, r) = refl

as_commit-history :
    (c : Option Text × Repo) (history : List Entry) (e : Raised)
    → (c.0 ≡ none → c.1.history ≡ history)
    → (as_commit c).0 ≡ Outcome.raised e
    → (as_commit c).1.history ≡ history
as_commit-history (none, r) history e h g = h refl
as_commit-history (some id, r) history e h g = absurd (cc)

committed-Attempted :
    (w : Bool × Tree) (info : Info) (p : Plan) (r : Repo)
    → ((k : Text) → member k p.reverted ≡ false → lookup k w.1 ≡ lookup k r.working)
    → Attempted p r (committed w info p r)
unfolding commit_keys
committed-Attempted (false, tree) info p r h = record { elsewhere = h; history = λ e g. refl }
committed-Attempted (true, tree) info p r h =
    let r' : Repo = record r { working = tree } in
    let ks = p.files ++ p.reverted in
    let c = commit_keys info ks r' in
    record {
      elsewhere = λ k m.
          ap (λ t. lookup k t) (as_commit-working c ∙ keyed-working r.outcomes info ks r') ∙ h k m;
      history = λ e g. as_commit-history c r.history e (keyed_refused r.outcomes info ks r') g;
    }

pub attempt-Attempted : (info : Info) (p : Plan) (r : Repo) → Attempted p r (attempt info p r)
unfolding attempt
attempt-Attempted info p r =
    committed-Attempted (written p r.working) info p r (written_elsewhere p r.working)
