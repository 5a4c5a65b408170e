-- ===== src/AgentGit/Resolved.antt =====
-- Which commits the refs of nontainer/agentgit.py resolve to.
use nontainer.Prelude.{
  Text, concat, Bool, true, false, List, Option, none, some, [], ◌∷◌, ◌&&◌, ◌≡◌, refl, sym, ap, ◌∙◌,
  lookup, member, text_eq, text_eq_refl, any, Bool-cases, Option-cases, inl, inr, arith, ℕ,
}
use nontainer.AgentGit.Repo.{Repo, Entry, entry_of}
use nontainer.AgentGit.Commit.{Outcome}
use nontainer.AgentGit.Log.{is_agent_commit, walk, first_of, unless_spent, lower}
use nontainer.AgentGit.Tags.{is_hash, resolve, tagged, in_graph, in_history, expand_commit, ids}

-- Whether a commit of the history is one of the agent's own.
abbrev pub is_own : Text → Entry → Bool
is_own id e = text_eq e.id id && is_agent_commit e

member-walk :
    (id : Text) (wanted : Option Text) (left : Option ℕ) (es : List Entry)
    → member id (ids (walk wanted left es)) ≡ true
    → any (is_own id) es ≡ true
unfolding walk member
member-walk id none left es m = absurd (cc)
member-walk id (some w) left [] m = absurd (cc)
member-walk id (some w) left (e ∷ es) m = elim (Bool-cases (text_eq e.id w)) [
  | inr other ↦ ground (arith, member-walk id (some w) left es (rw (other, walk) at m))
  | inl same ↦ elim (Bool-cases (is_agent_commit e)) [
    | inr plumbing ↦ ground (
      arith,
      member-walk id (first_of e.virtual_parents) left es (rw (same, plumbing, walk) at m),
    )
    | inl agent ↦ elim (Bool-cases (text_eq e.id id)) [
      | inl it ↦ rw (it, agent) refl
      | inr more ↦
          let rest : member id (
                ids (walk (unless_spent (lower left) (first_of e.virtual_parents)) (lower left) es))
              ≡ true =
            rw (same, agent, walk, more) at m in
          ground (
            arith,
            member-walk id (unless_spent (lower left) (first_of e.virtual_parents)) (lower left) es
                rest,
          )
    ]
  ]
]

own_entry :
    (k : Text) (es : List Entry) (e : Entry)
    → entry_of k es ≡ some e
    → is_agent_commit e ≡ true
    → any (is_own e.id) es ≡ true
unfolding entry_of
own_entry k [] e m agent = absurd (cc)
own_entry k (x ∷ es) e m agent = elim (Bool-cases (text_eq x.id k)) [
  | inl same ↦
      let is_e : x ≡ e = ap (λ o. elim o [ none ↦ x | some z ↦ z ]) (rw (same) at m) in
      rw (is_e, text_eq_refl e.id, agent) refl
  | inr other ↦ ground (arith, own_entry k es e (rw (other) at m) agent)
]

in_history-own :
    (ref : Text) (r : Repo) (c : Text)
    → in_history ref r ≡ Outcome.done c
    → any (is_own c) r.history ≡ true
in_history-own ref r c g = elim (Option-cases (expand_commit ref (ids r.history))) [
  | inl e ↦ absurd (cc (rw (e, in_history) at g))
  | inr (found, e) ↦ elim (Option-cases (entry_of found r.history)) [
    | inl m ↦ absurd (cc (rw (e, m, in_history) at g))
    | inr (x, m) ↦ elim (Bool-cases (is_agent_commit x)) [
      | inr plumbing ↦ absurd (cc (rw (e, m, plumbing, in_history) at g))
      | inl agent ↦
          let is_x : x.id ≡ c = cc (rw (e, m, agent, in_history) at g) in
          rw (sym is_x) (own_entry found r.history x m agent)
    ]
  ]
]

in_graph-own :
    (ref : Text) (r : Repo) (c : Text)
    → in_graph ref r ≡ Outcome.done c
    → any (is_own c) r.history ≡ true
in_graph-own ref r c g =
    elim (Option-cases (expand_commit ref (ids (walk r.blob.head none r.history)))) [
      | inl e ↦ absurd (cc (rw (e, in_graph) at g))
      | inr (found, e) ↦ elim (Bool-cases (member found (ids (walk r.blob.head none r.history)))) [
        | inl mine ↦
            let is_c : found ≡ c = cc (rw (e, mine, in_graph) at g) in
            rw (sym is_c) (member-walk found r.blob.head none r.history mine)
        | inr stepped_off ↦ in_history-own ref r c (rw (e, stepped_off, in_graph) at g)
      ]
    ]

tagged-own :
    (ref : Text) (r : Repo) (c : Text)
    → lookup ref r.blob.tags ≡ none
    → tagged ref r ≡ Outcome.done c
    → any (is_own c) r.history ≡ true
tagged-own ref r c untagged g = elim (Bool-cases (is_hash ref)) [
  | inr word ↦ absurd (cc (rw (untagged, word, tagged) at g))
  | inl hash ↦ in_graph-own ref r c (rw (untagged, hash, tagged) at g)
]

resolve-tagged :
    (ref : Text) (r : Repo)
    → r.indexed ≡ true
    → text_eq ref (concat "HEAD") ≡ false
    → resolve ref r ≡ tagged ref r
unfolding resolve
resolve-tagged ref r i other = ground arith

resolve-indexed :
    (ref : Text) (r : Repo) (c : Text) → resolve ref r ≡ Outcome.done c → r.indexed ≡ true
unfolding resolve
resolve-indexed ref r c g = elim (Bool-cases r.indexed) [
  | inl i ↦ i
  | inr bare ↦ absurd (cc (rw (bare, resolve) at g))
]

-- A ref that is neither `HEAD` nor a tag, where it resolves, is one of the agent's own commits in the
-- session's history, never one that the framework made.
pub resolve-own :
    (ref : Text) (r : Repo) (c : Text)
    → text_eq ref (concat "HEAD") ≡ false
    → lookup ref r.blob.tags ≡ none
    → resolve ref r ≡ Outcome.done c
    → any (is_own c) r.history ≡ true
resolve-own ref r c other untagged g =
    tagged-own ref r c untagged (sym (resolve-tagged ref r (resolve-indexed ref r c g) other) ∙ g)
