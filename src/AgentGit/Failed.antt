-- ===== src/AgentGit/Failed.antt =====
-- A commit of nontainer/agentgit.py that fails.
use nontainer.Prelude.{
  Text, Bool, true, false, Option, none, some, ◌≡◌, ◌≢◌, refl, ap, ◌∙◌, lookup, Option-cases, inl,
  inr,
}
use nontainer.AgentGit.Trees.{Tree, restore}
use nontainer.AgentGit.Writes.{Untangled}
use nontainer.AgentGit.Restored.{restore-back}
use nontainer.AgentGit.Attempted.{Unchanged, Attempted, attempt-Attempted}
use nontainer.AgentGit.Repo.{Repo, commit_keys, refresh}
use nontainer.AgentGit.Changes.{Session}
use nontainer.AgentGit.Commit.{Raised, Outcome, Plan, plan, landed, attempt}
use nontainer.AgentGit.Record.{
  Keeping, lose, recorded_again, retry, recorded, record_state, returned, restoring, kept_going,
  undone, settled, land, landing, commit, commit_info, refusal,
}

-- What is raised once the agent's commit has landed is the loss of its record.
Losing : Outcome Unit × Repo → Type 0
Losing res = (e : Raised) → res.0 ≡ Outcome.raised e → e ≡ Raised.bookkeeping_lost

lose-Losing : (e : Raised) (k : Keeping) (r : Repo) → k.landed ≡ true → Losing (lose e k r)
unfolding Losing
lose-Losing e k r h e' g = cc (rw (h) at g)

recorded_again-Losing :
    (c : Option Text × Repo) (k : Keeping) → k.landed ≡ true → Losing (recorded_again c k)
unfolding Losing
recorded_again-Losing (some id, r) k h e g = absurd (cc)
recorded_again-Losing (none, r) k h e g = lose-Losing Raised.commit_failed k r h e g

retry-Losing : (w : Bool × Tree) (k : Keeping) (r : Repo) → k.landed ≡ true → Losing (retry w k r)
unfolding Losing
retry-Losing (false, tree) k r h = lose-Losing Raised.in_the_way k (record r { working = tree }) h
retry-Losing (true, tree) k r h =
    recorded_again-Losing (commit_keys k.info k.paths (record r { working = tree; blob = k.state }))
      k h

recorded-Losing : (c : Option Text × Repo) (k : Keeping) → k.landed ≡ true → Losing (recorded c k)
unfolding Losing
recorded-Losing (some id, r) k h e g = absurd (cc)
recorded-Losing (none, r) k h e g =
    retry-Losing (restore k.source k.paths (refresh r).working) k (refresh r) h e g

returned-Losing :
    {A : Type 0} (a : A) (res : Outcome Unit × Repo) (e : Raised)
    → Losing res
    → (returned a res).0 ≡ Outcome.raised e
    → e ≡ Raised.bookkeeping_lost
unfolding Losing
returned-Losing a (Outcome.done u, r) e h g = absurd (cc)
returned-Losing a (Outcome.raised e', r) e h g = (cc (h e' refl))

undone-Unchanged :
    (e : Raised) (r : Repo) (w : Bool × Tree) (r' : Repo)
    → w.0 ≡ true
    → ((k : Text) → lookup k w.1 ≡ lookup k r.working)
    → r'.history ≡ r.history
    → Unchanged r (undone e r w r').1
undone-Unchanged e r (false, tree) r' ok same h = absurd (cc)
undone-Unchanged e r (true, tree) r' ok same h = record { working = same; blob = refl; history = h }

kept_going-Losing :
    (id : Text) (p : Plan) (r : Repo) (w : Bool × Tree) (r' : Repo) (e : Raised)
    → w.0 ≡ true
    → (kept_going id p r w r').0 ≡ Outcome.raised e
    → e ≡ Raised.bookkeeping_lost
unfolding record_state
kept_going-Losing id p r (false, tree) r' e ok g = absurd (cc)
kept_going-Losing id p r (true, tree) r' e ok g =
    let k = restoring id p r in
    let r1 : Repo = record r' { working = tree } in
    returned-Losing (id, p.files) (record_state k r1) e
      (recorded-Losing (commit_keys k.info k.paths (record r1 { blob = k.state })) k refl) g

settled_failed :
    (p : Plan) (r r0 : Repo) (res : Outcome Text × Repo) (e : Raised)
    → Untangled r.working
    → r0.working ≡ r.working
    → r0.history ≡ r.history
    → Attempted p r0 res
    → (settled p r res).0 ≡ Outcome.raised e
    → e ≢ Raised.bookkeeping_lost
    → Unchanged r (settled p r res).1
settled_failed p r r0 (Outcome.raised e', r') e u w h a g n =
    let (ok, same) =
      restore-back r.working p.reverted r'.working u
        (λ k m. a.elsewhere k m ∙ ap (λ t. lookup k t) w) in
    undone-Unchanged e' r (restore r.working p.reverted r'.working) r' ok same
      (a.history e' refl ∙ h)
settled_failed p r r0 (Outcome.done id, r') e u w h a g n =
    let (ok, same) =
      restore-back r.working p.reverted r'.working u
        (λ k m. a.elsewhere k m ∙ ap (λ t. lookup k t) w) in
    absurd (n (kept_going-Losing id p r (restore r.working p.reverted r'.working) r' e ok g))

land_failed :
    (message : Option Text) (plan : Outcome Plan) (r : Repo) (e : Raised)
    → Untangled r.working
    → (landing message plan r).0 ≡ Outcome.raised e
    → e ≢ Raised.bookkeeping_lost
    → Unchanged r (landing message plan r).1
unfolding land
land_failed message (Outcome.raised e') r e u g n = record {
  working = λ k. refl;
  blob = refl;
  history = refl;
}
land_failed message (Outcome.done p) r e u g n =
    let r0 : Repo = record r { blob = landed p r } in
    let info = commit_info message r.blob.head p.files in
    settled_failed p r r0 (attempt info p r0) e u refl refl (attempt-Attempted info p r0) g n

-- Whatever a commit raises, but for the loss of its record, leaves every file of the working tree, the
-- agent's state and the store's history as they were, where no file stands in another's way.
pub commit-Unchanged :
    (s : Session) (message : Option Text) (r : Repo) (e : Raised)
    → Untangled r.working
    → (commit s message r).0 ≡ Outcome.raised e
    → e ≢ Raised.bookkeeping_lost
    → Unchanged r (commit s message r).1
unfolding commit
commit-Unchanged s message r e u g n = elim (Option-cases (refusal r)) [
  | inl ok ↦ rw (ok, commit) (land_failed message (plan s r) r e u (rw (ok, commit) at g) n)
  | inr (e', why) ↦ rw (why, commit) (record { working = λ k. refl; blob = refl; history = refl })
]
