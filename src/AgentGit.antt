-- ===== src/AgentGit.antt =====
-- nontainer/agentgit.py: the agent's git over one session, an index and a graph of commits that are
-- metadata over the store's keyed commits.
pub mod Trees
pub mod Blob
pub mod Repo
pub mod Writes
pub mod Restored
pub mod Changes
pub mod Measured
pub mod Commit
pub mod Record
pub mod Attempted
pub mod Failed
pub mod Planned
pub mod Taken
pub mod Overlay
pub mod Landed
pub mod Exact
pub mod Lost
pub mod Index
pub mod Staged
pub mod Log
pub mod Graph
pub mod Tags
pub mod Bookmarks
pub mod Resolved
pub mod Checkout
pub mod Rewritten
pub mod CheckedOut
pub mod Fork
pub mod Forked
mod Examples
