-- ===== src/AgentGit/Graph.antt =====
-- The log of nontainer/agentgit.py against the agent's graph of commits.
use nontainer.Prelude.{
  Text, Bool, true, false, List, Option, none, some, [], ◌∷◌, ◌≡◌, refl, sym, ap, ◌∙◌, text_eq,
  keep, any, if◌then◌else◌, length, take, length-take_le, ℕ, zero, suc, ◌≤◌, Bool-cases,
  Option-cases, inl, inr, arith,
}
use nontainer.AgentGit.Repo.{Repo, Entry, entry_of}
use nontainer.AgentGit.Commit.{Raised, Outcome}
use nontainer.AgentGit.Log.{is_agent_commit, first_of, unless_spent, walk, log_of, log}

-- The commits from one on, each the first parent of the one before, up to a bound.
unfoldable pub chain : ℕ → Option Text → List Entry → List Entry
chain zero wanted es = []
chain (suc n) none es = []
chain (suc n) (some id) es = elim (entry_of id es) [
  | none ↦ []
  | some e ↦ e ∷ chain n (first_of e.virtual_parents) es
]

abbrev is_id : Text → Option Text → Bool
is_id id none = false
is_id id (some other) = text_eq id other

-- Whether an entry's first parent is the commit.
abbrev pub follows : Text → Entry → Bool
follows id e = is_id id (first_of e.virtual_parents)

-- A commit's first parent is older: none of a commit and the older ones follows it.
abbrev pub IsHistory : List Entry → Type 0
IsHistory [] = Unit
IsHistory (e ∷ es) = (any (follows e.id) (e ∷ es) ≡ false) × IsHistory es

not_follows :
    (id k : Text) (es : List Entry) (x : Entry)
    → any (follows id) es ≡ false
    → entry_of k es ≡ some x
    → follows id x ≡ false
unfolding entry_of
not_follows id k [] x h e = absurd (cc)
not_follows id k (y ∷ es) x h e = elim (Bool-cases (text_eq y.id k)) [
  | inl same ↦
      let is_y : y ≡ x = ap (λ o. elim o [ none ↦ y | some z ↦ z ]) (rw (same) at e) in
      ap (follows id) (sym is_y) ∙ ground arith
  | inr other ↦ not_follows id k es x (ground arith) (rw (other) at e)
]

entry_of_first :
    (id : Text) (e : Entry) (es : List Entry)
    → text_eq e.id id ≡ true
    → entry_of id (e ∷ es) ≡ some e
unfolding entry_of
entry_of_first id e es same = rw (same) refl

entry_of_later :
    (id : Text) (e : Entry) (es : List Entry)
    → text_eq e.id id ≡ false
    → entry_of id (e ∷ es) ≡ entry_of id es
unfolding entry_of
entry_of_later id e es other = rw (other) refl

chain_found :
    (n : ℕ) (id : Text) (x : Entry) (es : List Entry)
    → entry_of id es ≡ some x
    → chain (suc n) (some id) es ≡ x ∷ chain n (first_of x.virtual_parents) es
unfolding chain
chain_found n id x es m = rw (m, chain) refl

chain_ended :
    (n : ℕ) (id : Text) (es : List Entry) → entry_of id es ≡ none → chain (suc n) (some id) es ≡ []
unfolding chain
chain_ended n id es m = rw (m, chain) refl

-- What follows no newer commit is found among the older ones.
chain-skip :
    (n : ℕ) (wanted : Option Text) (e : Entry) (es : List Entry)
    → is_id e.id wanted ≡ false
    → any (follows e.id) es ≡ false
    → chain n wanted (e ∷ es) ≡ chain n wanted es
unfolding chain
chain-skip zero wanted e es other h = refl
chain-skip (suc n) none e es other h = refl
chain-skip (suc n) (some id) e es other h = elim (Option-cases (entry_of id es)) [
  | inl m ↦
      chain_ended n id (e ∷ es) (entry_of_later id e es other ∙ m) ∙ sym (chain_ended n id es m)
  | inr (x, m) ↦
      chain_found n id x (e ∷ es) (entry_of_later id e es other ∙ m)
      ∙ (ap (λ xs. x ∷ xs)
            (chain-skip n (first_of x.virtual_parents) e es (not_follows e.id id es x h m) h)
          ∙ sym (chain_found n id x es m))
]

keep_agent_skip :
    (e : Entry) (es : List Entry)
    → is_agent_commit e ≡ false
    → keep is_agent_commit (e ∷ es) ≡ keep is_agent_commit es
keep_agent_skip e es h = rw (h) refl

keep_agent :
    (e : Entry) (es : List Entry)
    → is_agent_commit e ≡ true
    → keep is_agent_commit (e ∷ es) ≡ e ∷ keep is_agent_commit es
keep_agent e es h = rw (h) refl

-- A walk over the history meets the agent's commits of the chain from where it starts.
pub walk-chain :
    (n : ℕ) (wanted : Option Text) (es : List Entry)
    → IsHistory es
    → length es ≤ n
    → walk wanted none es ≡ keep is_agent_commit (chain n wanted es)
unfolding walk chain entry_of
walk-chain zero none es h fuel = refl
walk-chain zero (some id) [] h fuel = refl
walk-chain zero (some id) (e ∷ es) h fuel = absurd (omega arith)
walk-chain (suc n) none es h fuel = refl
walk-chain (suc n) (some id) [] h fuel = refl
walk-chain (suc n) (some id) (e ∷ es) (free, h) fuel = elim (Bool-cases (text_eq e.id id)) [
  | inr other ↦
      rw (other, walk)
        (walk-chain (suc n) (some id) es h (omega arith)
          ∙ ap (keep is_agent_commit)
              (sym (chain-skip (suc n) (some id) e es other (ground arith))))
  | inl same ↦
      let older : walk (first_of e.virtual_parents) none es
          ≡ keep is_agent_commit (chain n (first_of e.virtual_parents) (e ∷ es)) =
        walk-chain n (first_of e.virtual_parents) es h (omega arith)
        ∙ ap (keep is_agent_commit)
            (sym (chain-skip n (first_of e.virtual_parents) e es (ground arith) (ground arith))) in
      let found =
        ap (keep is_agent_commit)
          (sym (chain_found n id e (e ∷ es) (entry_of_first id e es same))) in
      elim (Bool-cases (is_agent_commit e)) [
        | inl agent ↦
            rw (same, agent, walk)
              (ap (λ xs. e ∷ xs) older
                ∙ (sym (keep_agent e (chain n (first_of e.virtual_parents) (e ∷ es)) agent)
                    ∙ found))
        | inr plumbing ↦
            rw (same, plumbing, walk)
              (older
                ∙ (sym (keep_agent_skip e (chain n (first_of e.virtual_parents) (e ∷ es)) plumbing)
                    ∙ found))
      ]
]

-- A limit counts what comes back: the first ones of the whole log.
walk_limited :
    (n : ℕ) (wanted : Option Text) (es : List Entry)
    → walk (unless_spent (some n) wanted) (some n) es ≡ take n (walk wanted none es)
unfolding walk
walk_limited zero wanted es = refl
walk_limited (suc n) none es = refl
walk_limited (suc n) (some id) [] = refl
walk_limited (suc n) (some id) (e ∷ es) = elim (Bool-cases (text_eq e.id id)) [
  | inr other ↦ rw (other, walk) (walk_limited (suc n) (some id) es)
  | inl same ↦ elim (Bool-cases (is_agent_commit e)) [
    | inl agent ↦
        rw (same, agent, walk) (ap (λ xs. e ∷ xs) (walk_limited n (first_of e.virtual_parents) es))
    | inr plumbing ↦
        rw (same, plumbing, walk) (walk_limited (suc n) (first_of e.virtual_parents) es)
  ]
]

-- As many of the first ones as a limit asks for.
abbrev pub limited : Option ℕ → List Entry → List Entry
limited none es = es
limited (some n) es = take n es

log_of-limited :
    (limit : Option ℕ) (r : Repo) → log_of limit r ≡ limited limit (walk r.blob.head none r.history)
unfolding walk
log_of-limited none r = refl
log_of-limited (some zero) r = refl
log_of-limited (some (suc n)) r = walk_limited (suc n) r.blob.head r.history

-- In a session that has an index, the log is the agent's commits on the chain of first parents from its
-- head, as many as the limit asks for, where no commit's first parent is the commit or newer; following
-- as many parents as the history is long is enough.
pub log-chain :
    (limit : Option ℕ) (r : Repo) (n : ℕ)
    → r.indexed ≡ true
    → IsHistory r.history
    → length r.history ≤ n
    → log limit r
      ≡ Outcome.done (limited limit (keep is_agent_commit (chain n r.blob.head r.history)))
unfolding log
log-chain limit r n indexed h fuel =
    ap (λ b. if b then Outcome.done (log_of limit r) else Outcome.raised Raised.not_supported)
      indexed
    ∙ ap (λ es. Outcome.done es)
        (log_of-limited limit r ∙ ap (limited limit) (walk-chain n r.blob.head r.history h fuel))

-- A log is no longer than its limit.
pub log_bounded :
    (n : ℕ) (r : Repo) (es : List Entry) → log (some n) r ≡ Outcome.done es → length es ≤ n
unfolding log
log_bounded n r es e = elim (Bool-cases r.indexed) [
  | inr bare ↦ absurd (cc (rw (bare, log) at e))
  | inl indexed ↦
      let same : log_of (some n) r ≡ es = cc (rw (indexed, log) at e) in
      rw (sym same, log_of-limited (some n) r) (length-take_le n (walk r.blob.head none r.history))
]
