-- ===== src/Lib.antt =====
-- A model of nontainer, versioned and forkable workspaces for code-using agents.
--
-- A session's state is one mapping of keys to values, its store. The reserved prefixes of
-- nontainer/planes.py part it into planes: the stored conversation, compaction's folds, the agent's
-- cache, the files. An agent's turn reads notes from an inbox at each tool result, and its end
-- writes the run into the conversation.
--
-- The files:
--   Prelude         shared names, Boolean tests, lists, texts as lists of code points, dicts.
--   Values          the Python values that a store holds, with truth, iteration and `get`.
--   Planes          nontainer/planes.py, and the store `Kv`: `get`, `set_item`, `delete_item`.
--                   A store carries the list of which of its coming writes fail, so that every
--                   sequence of failures is an argument. Planes.Writes has its laws.
--   Inbox           nontainer/inbox.py: the class `Inbox`, one function for each method that
--                   changes it, since each runs under the inbox's lock. Inbox.Render has `render`
--                   and `split`, Inbox.Notes `Note` and `default_frame`, Inbox.Decimal the numerals
--                   of a trailer. What `\d` matches is the parameter `digit` (Unicode's table).
--   Conversation    nontainer/conversation.py: `read_index`, `read_record`, `read_runs`, `write`
--                   with its plan (`planned`) and its application (`apply`), `rebind`, `reclaim`,
--                   `wipe`, `clear`; Conversation.IndexData has `Index` and its stored form. `str`
--                   on a value that is no string is a parameter. A deep copy is the value itself.
--   Turns           nontainer/turns.py: the class `Turn` and its `Turns`. Turns.Delivery has `collect`,
--                   `deliver`, `adeliver`, `opening` and `aopening` as functions of the inbox, where a
--                   source says whether it raised; Turns.State has `begin` and `bind`, Turns.Ending
--                   `_store` and `end`, Turns.Leaving `__exit__`. The workspace's commit and its test
--                   for staged changes are fields of the record `Workspace`.
--   Editing         nontainer/editing.py: Editing.Edit has `apply_edit`, Editing.Matching `str.count`,
--                   `str.replace` and `_trailing_ws_pattern` with the matches that `re` gives it,
--                   Editing.Indent `_indent_flexible_matches` and `_reindent`. What `strip` strips is a
--                   parameter. An indent's shift is the pair of indents that it leads from and to.
--   Compaction      nontainer/compaction.py: Compaction.Folds has `Fold`, `folds`, `record` (here
--                   record_fold), `in_force` and `Policy`; Compaction.Items `Item`, `transcript` and
--                   `reduce`; Compaction.Chunks `chunks`. What `rstrip` strips is a parameter, and so
--                   is the clock's reading for a stored fold that has no time.
--   Paths           posixpath's normpath, join and dirname, which Views works with.
--   Views           nontainer/views.py: the class `ViewFS`, with its guards, `admit`, `show` and
--                   `reset`; Views.Reads has its reads. The filesystem beneath is the record `Fs`,
--                   what its calls answer at the moment of a call. The callback of a view that widens
--                   is the log of the views that it was called with.
--   Ignore          nontainer/ignore.py: `Patterns` with its translation to regular expressions,
--                   `why_ignored`, `is_ignored`, `drop_ignored`. Compiling and matching a regular
--                   expression, and what `strip` strips, are parameters.
--   Refs            nontainer/store/refs.py: `Ref`, with `Ref.parse` and `str` (here show_ref).
--
--   AgentGit        nontainer/agentgit.py: the class `AgentGit` over one session. AgentGit.Repo has the
--                   session (its working tree, the agent's state, the store's commits) with
--                   `commit_keys`, `refresh` and `files_at` of nontainer/providers/kvgit.py;
--                   AgentGit.Blob `parse_blob` and `_encode_blob`; AgentGit.Trees `_in_way`, `_put` and
--                   `_restore`; AgentGit.Changes `_changes` and `status`; AgentGit.Commit and
--                   AgentGit.Record the commit, up to its first write, its effects, and `_record`;
--                   AgentGit.Index `stage`, `unstage`, `discard`; AgentGit.Log `log`; AgentGit.Tags
--                   `tag`, `delete_tag`, `resolve` and the short ids of nontainer/protocol.py;
--                   AgentGit.Checkout `checkout`, `record_merge`, `abort_merge`;
--                   AgentGit.Fork `reset_for_fork`, `write_stash` and the reads of a session that is
--                   to be merged, at its branch's head. A path is ignored or
--                   seen, and the store's head pending, as the record `Session` says. Whether a keyed
--                   commit lands, and under which id, is a list of the coming outcomes: a refused
--                   one stands for a conflict or any other failure of the store. What another writer
--                   commits in between is not modelled, nor are directories that hold no file. JSON's
--                   text is a parameter.
--
-- Witnesses and test runs stand in the modules named Examples.
--
-- Loops are recursions on the lists that they go through; numerals are printed on fuel, one more
-- than the number, which is more than its digits; the agent's chain of commits is followed on fuel,
-- the length of the history, each of whose commits it passes once at most; and a pattern is
-- translated on fuel, the number of its characters, of which each turn takes one or more.
--
-- Not modelled: logging, the file systems, the sandboxes and the adapters, which are calls of other
-- packages; the wording of compaction's requests and of an edit's errors; the stored form of a view.
pub mod Prelude
pub mod Values
pub mod AgentGit
pub mod Editing
pub mod Compaction
pub mod Ignore
pub mod Inbox
pub mod Paths
pub mod Planes
pub mod Refs
pub mod Conversation
pub mod Turns
pub mod Views
