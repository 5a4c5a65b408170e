-- ===== src/AgentGit/Lost.antt =====
-- A commit of nontainer/agentgit.py that lands while its record does not.
use nontainer.Prelude.{
  Text, concat, Bool, true, false, List, Option, none, some, [], ◌∷◌, ◌++◌, ◌≡◌, ◌≢◌, refl, ap, ◌∙◌,
  is_empty, Bool-cases, Option-cases, inl, inr,
}
use nontainer.AgentGit.Trees.{Tree, restore}
use nontainer.AgentGit.Repo.{Repo, Info, Entry, commit_keys, keyed, entry_from, refresh, head_blob}
use nontainer.AgentGit.Changes.{Session, changes, base_tree}
use nontainer.AgentGit.Commit.{
  Raised, Outcome, Plan, plan, chosen, landed, written, attempt, committed, as_commit,
}
use nontainer.AgentGit.Record.{
  Keeping, lose, recorded_again, retry, recorded, record_state, returned, restoring, kept_going,
  undone, settled, land, landing, commit, commit_info, refusal,
}
use nontainer.AgentGit.Attempted.{keyed_refused}

-- The state in hand is the one that the store's head holds, and the history is the one given.
record Reverted (es : List Entry) (r : Repo) : Type 0 where
  history : r.history ≡ es
  blob : r.blob ≡ head_blob es

lose-Reverted :
    (e : Raised) (k : Keeping) (r : Repo) (history : List Entry)
    → k.landed ≡ true
    → r.history ≡ history
    → Reverted history (lose e k r).1
lose-Reverted e k r history h g = rw (h) (record { history = g; blob = ap head_blob g })

recorded_again-Reverted :
    (c : Option Text × Repo) (k : Keeping) (history : List Entry)
    → k.landed ≡ true
    → (c.0 ≡ none → c.1.history ≡ history)
    → (recorded_again c k).0 ≡ Outcome.raised Raised.bookkeeping_lost
    → Reverted history (recorded_again c k).1
recorded_again-Reverted (some id, r) k history h g e = absurd (cc)
recorded_again-Reverted (none, r) k history h g e =
    lose-Reverted Raised.commit_failed k r history h (g refl)

retry-Reverted :
    (w : Bool × Tree) (k : Keeping) (r : Repo)
    → k.landed ≡ true
    → (retry w k r).0 ≡ Outcome.raised Raised.bookkeeping_lost
    → Reverted r.history (retry w k r).1
unfolding commit_keys
retry-Reverted (false, tree) k r h e =
    lose-Reverted Raised.in_the_way k (record r { working = tree }) r.history h refl
retry-Reverted (true, tree) k r h e =
    let r' : Repo = record r { working = tree; blob = k.state } in
    recorded_again-Reverted (commit_keys k.info k.paths r') k r.history h
      (keyed_refused r.outcomes k.info k.paths r') e

recorded-Reverted :
    (c : Option Text × Repo) (k : Keeping) (history : List Entry)
    → k.landed ≡ true
    → (c.0 ≡ none → c.1.history ≡ history)
    → (recorded c k).0 ≡ Outcome.raised Raised.bookkeeping_lost
    → Reverted history (recorded c k).1
unfolding refresh
recorded-Reverted (some id, r) k history h g e = absurd (cc)
recorded-Reverted (none, r) k history h g e =
    rw⁻¹ (g refl) (retry-Reverted (restore k.source k.paths (refresh r).working) k (refresh r) h e)

returned_raised :
    {A : Type 0} (a : A) (res : Outcome Unit × Repo) (e : Raised)
    → (returned a res).0 ≡ Outcome.raised e
    → (res.0 ≡ Outcome.raised e) × ((returned a res).1 ≡ res.1)
returned_raised a (Outcome.done u, r) e g = absurd (cc)
returned_raised a (Outcome.raised e', r) e g = (cc, refl)

-- How the attempt at a commit ends, as its record needs it.
record AtHead (info : Info) (r : Repo) (res : Outcome Text × Repo) : Type 0 where
  raises : (e : Raised) → res.0 ≡ Outcome.raised e → e ≢ Raised.bookkeeping_lost
  lands :
      (id : Text)
      → res.0 ≡ Outcome.done id
      → (entry : Entry) × ((res.1.history ≡ entry ∷ r.history)
          × ((entry.blob ≡ r.blob) × ((entry.tool ≡ info.tool) × (entry.id ≡ id))))

keyed-AtHead :
    (os : List (Option Text)) (info : Info) (ks : List Text) (r : Repo)
    → AtHead info r (as_commit (keyed os info ks r))
keyed-AtHead [] info ks r = record { raises = λ e g l. absurd (cc); lands = λ id g. absurd (cc) }
keyed-AtHead (none ∷ os) info ks r = record {
  raises = λ e g l. absurd (cc);
  lands = λ id g. absurd (cc);
}
keyed-AtHead (some id ∷ os) info ks r = record {
  raises = λ e g. absurd (cc);
  lands = λ j g. (entry_from id info ks r, (refl, (refl, (refl, cc))));
}

committed-AtHead :
    (w : Bool × Tree) (info : Info) (p : Plan) (r : Repo) → AtHead info r (committed w info p r)
unfolding commit_keys
committed-AtHead (false, tree) info p r = record {
  raises = λ e g l. absurd (cc);
  lands = λ id g. absurd (cc);
}
committed-AtHead (true, tree) info p r =
    let a = keyed-AtHead r.outcomes info (p.files ++ p.reverted) (record r { working = tree }) in
    record { raises = a.raises; lands = a.lands }

-- A commit that landed in the store, and whose record was lost.
pub record LostRecord (r : Repo) (res : Outcome (Text × List Text) × Repo) : Type 0 where
  pub entry : Entry
  pub history : res.1.history ≡ entry ∷ r.history
  pub blob : res.1.blob ≡ entry.blob
  pub head : entry.blob.head ≡ r.blob.head
  pub tool : entry.tool ≡ concat "ws-git"

kept_going-LostRecord :
    (id : Text) (p : Plan) (r : Repo) (w : Bool × Tree) (r' : Repo) (entry : Entry)
    → r'.history ≡ entry ∷ r.history
    → entry.blob ≡ landed p r
    → entry.tool ≡ concat "ws-git"
    → (kept_going id p r w r').0 ≡ Outcome.raised Raised.bookkeeping_lost
    → LostRecord r (kept_going id p r w r')
unfolding record_state commit_keys landed
kept_going-LostRecord id p r (false, tree) r' entry h b t e = absurd (cc)
kept_going-LostRecord id p r (true, tree) r' entry h b t e =
    let k = restoring id p r in
    let r1 : Repo = record r' { working = tree; blob = k.state } in
    let res = record_state k (record r' { working = tree }) in
    let (lost, same) = returned_raised (id, p.files) res Raised.bookkeeping_lost e in
    let back =
      recorded-Reverted (commit_keys k.info k.paths r1) k r'.history refl
        (keyed_refused r'.outcomes k.info k.paths r1) lost in
    record {
      entry = entry;
      history = ap (λ q. q.history) same ∙ (back.history ∙ h);
      blob = ap (λ q. q.blob) same ∙ (back.blob ∙ ap head_blob h);
      head = ap (λ q. q.head) b;
      tool = t;
    }

undone_lost :
    (e : Raised) (r : Repo) (w : Bool × Tree) (r' : Repo)
    → e ≢ Raised.bookkeeping_lost
    → (undone e r w r').0 ≢ Outcome.raised Raised.bookkeeping_lost
undone_lost e r (false, tree) r' n g = absurd (cc)
undone_lost e r (true, tree) r' n g = n (cc)

settled-LostRecord :
    (p : Plan) (r r0 : Repo) (info : Info) (res : Outcome Text × Repo)
    → r0.history ≡ r.history
    → r0.blob ≡ landed p r
    → info.tool ≡ concat "ws-git"
    → AtHead info r0 res
    → (settled p r res).0 ≡ Outcome.raised Raised.bookkeeping_lost
    → LostRecord r (settled p r res)
settled-LostRecord p r r0 info (Outcome.raised e, r') h b t a g =
    absurd (undone_lost e r (restore r.working p.reverted r'.working) r' (a.raises e refl) g)
settled-LostRecord p r r0 info (Outcome.done id, r') h b t a g =
    let (entry, (at_head, (blob, (tool, named)))) = a.lands id refl in
    kept_going-LostRecord id p r (restore r.working p.reverted r'.working) r' entry
      (at_head ∙ ap (λ es. entry ∷ es) h) (blob ∙ b) (tool ∙ t) g

refused_early : (s : Session) (r : Repo) → plan s r ≢ Outcome.raised Raised.bookkeeping_lost
unfolding plan
refused_early s r g = elim (Option-cases (changes s r.blob.head r.blob.base r)) [
  | inl e ↦ cc (rw (e, plan) at g)
  | inr (c, e) ↦ elim (Bool-cases (is_empty c.paths)) [
    | inl m ↦ cc (rw (e, m, plan) at g)
    | inr m ↦ elim (Option-cases (base_tree r.blob r)) [
      | inl b ↦ cc (rw (e, m, b, plan) at g)
      | inr (base, b) ↦ elim (Bool-cases (is_empty (chosen r.blob.staged c.paths))) [
        | inl f ↦ cc (rw (e, m, b, f, plan) at g)
        | inr f ↦ cc (rw (e, m, b, f, plan) at g)
      ]
    ]
  ]
]

landing-LostRecord :
    (message : Option Text) (plan : Outcome Plan) (r : Repo)
    → plan ≢ Outcome.raised Raised.bookkeeping_lost
    → (landing message plan r).0 ≡ Outcome.raised Raised.bookkeeping_lost
    → LostRecord r (landing message plan r)
unfolding land attempt
landing-LostRecord message (Outcome.raised e) r n g = absurd (n (cc))
landing-LostRecord message (Outcome.done p) r n g =
    let info = commit_info message r.blob.head p.files in
    let r0 : Repo = record r { blob = landed p r } in
    settled-LostRecord p r r0 info (attempt info p r0) refl refl refl
      (committed-AtHead (written p r.working) info p r0) g

refusal_early : (r : Repo) → refusal r ≢ some Raised.bookkeeping_lost
unfolding refusal
refusal_early r g = elim (Bool-cases r.indexed) [
  | inl i ↦ elim (Bool-cases r.frozen) [ inl f ↦ cc (rw (i, f) at g) | inr f ↦ cc (rw (i, f) at g) ]
  | inr i ↦ cc (rw (i) at g)
]

-- Where a commit raises that its record was lost, the agent's commit is the store's head, and the
-- agent's state in hand is the one that it holds, whose head is still the commit before it.
pub commit-LostRecord :
    (s : Session) (message : Option Text) (r : Repo)
    → (commit s message r).0 ≡ Outcome.raised Raised.bookkeeping_lost
    → LostRecord r (commit s message r)
unfolding commit
commit-LostRecord s message r g = elim (Option-cases (refusal r)) [
  | inl ok ↦
      rw (ok, commit)
        (landing-LostRecord message (plan s r) r (refused_early s r) (rw (ok, commit) at g))
  | inr (e, why) ↦ absurd (refusal_early r (why ∙ ap some (cc (rw (why, commit) at g))))
]
