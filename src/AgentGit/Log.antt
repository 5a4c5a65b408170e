-- ===== src/AgentGit/Log.antt =====
-- The agent's own history in nontainer/agentgit.py: its commits, its log, and the refs it types.
use nontainer.Prelude.{
  Text, concat, Bool, true, false, List, Option, none, some, [], ◌∷◌, if◌then◌else◌, member,
  text_eq, ℕ, zero, suc,
}
use nontainer.AgentGit.Repo.{Repo, Entry}
use nontainer.AgentGit.Commit.{Raised, Outcome}

-- `AGENT_TOOLS`
abbrev pub agent_tools : List Text
agent_tools =
    concat "ws-git"
    ∷ concat "ws-git.merge"
    ∷ concat "ws-git.revert"
    ∷ concat "ws-git.cherry-pick"
    ∷ concat "ws-git.apply"
    ∷ []

-- `is_agent_commit`
unfoldable pub is_agent_commit : Entry → Bool
is_agent_commit e = member e.tool agent_tools

-- `BOOKKEEPING_TOOLS`
abbrev pub bookkeeping_tools : List Text
bookkeeping_tools =
    concat "ws-git.restore"
    ∷ concat "ws-git.checkout"
    ∷ concat "ws-git.merge-record"
    ∷ concat "ws-git.fork"
    ∷ []

-- `is_bookkeeping_commit`
unfoldable pub is_bookkeeping_commit : Entry → Bool
is_bookkeeping_commit e = member e.tool bookkeeping_tools

-- `parents[0] if parents else None`
abbrev pub first_of : List Text → Option Text
first_of [] = none
first_of (p ∷ ps) = some p

-- One fewer of a limit, and the commit to look for once it is reached: none.
abbrev pub lower : Option ℕ → Option ℕ
lower none = none
lower (some zero) = some zero
lower (some (suc n)) = some n

abbrev pub unless_spent : Option ℕ → Option Text → Option Text
unless_spent none wanted = wanted
unless_spent (some zero) wanted = none
unless_spent (some (suc n)) wanted = wanted

-- The walk of `log` over the history: `wanted` is the next commit of the agent's graph, and `left` how
-- many more are asked for.
unfoldable pub walk : Option Text → Option ℕ → List Entry → List Entry
walk none left es = []
walk (some id) left [] = []
walk (some id) left (e ∷ es) = elim (text_eq e.id id) [
  | false ↦ walk (some id) left es
  | true ↦ elim (is_agent_commit e) [
    | false ↦ walk (first_of e.virtual_parents) left es
    | true ↦ e ∷ walk (unless_spent (lower left) (first_of e.virtual_parents)) (lower left) es
  ]
]

abbrev pub log_of : Option ℕ → Repo → List Entry
log_of (some zero) r = []
log_of left r = walk r.blob.head left r.history

-- `AgentGit.log`, of a limit that is not negative; a negative one gives what zero does.
unfoldable pub log : Option ℕ → Repo → Outcome (List Entry)
log limit r =
    if r.indexed then Outcome.done (log_of limit r) else Outcome.raised Raised.not_supported
