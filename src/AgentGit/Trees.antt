-- ===== src/AgentGit/Trees.antt =====
-- Trees of files, as nontainer/agentgit.py reads and writes them: which paths stand in one another's
-- way, writing a file, and writing or removing several in turn.
use nontainer.Prelude.{
  Text, concat, Bool, true, false, List, Option, none, some, [], ◌∷◌, ◌++◌, if◌then◌else◌, ◌||◌,
  ◌&&◌, not, any, keep, Dict, lookup, insert, erase, keys, starts_with, text_eq, is_some,
}

-- A file's bytes under each path that is a file. Directories stand where a file is below them; one
-- that holds nothing but directories is not kept.
abbrev pub Tree : Type 0
Tree = Dict Text

-- `_in_way`
unfoldable pub in_way : Text → Text → Bool
in_way a b = starts_with (b ++ concat "/") a || starts_with (a ++ concat "/") b

-- `_put`, with the tree that it leaves and whether it wrote: a write is refused where the path is a
-- directory that holds a file, or is below a file.
unfoldable pub put : Text → Text → Tree → Bool × Tree
put path value tree =
    if any (in_way path) (keys tree) then (false, tree) else (true, insert path value tree)

-- Writes of what `source` holds at the paths, in turn, up to one that is refused.
unfoldable pub put_each : Tree → List Text → Tree → Bool × Tree
put_each source [] tree = (true, tree)
put_each source (path ∷ paths) tree = elim (lookup path source) [
  | none ↦ put_each source paths tree
  | some value ↦
      let (written, tree') = put path value tree in
      let rest = put_each source paths tree' in if written then rest else (false, tree')
]

-- Removals of those of the paths that `source` has nothing at and that are there.
unfoldable pub remove_each : Tree → List Text → Tree → Tree
remove_each source [] tree = tree
remove_each source (path ∷ paths) tree = remove_each source paths (
    if not (is_some (lookup path source)) && is_some (lookup path tree)
    then erase path tree
    else tree)

-- `_restore` of what `source` held at the paths: removals first.
unfoldable pub restore : Tree → List Text → Tree → Bool × Tree
restore source paths tree = put_each source paths (remove_each source paths tree)

-- Two values of a path differ.
unfoldable pub differ : Option Text → Option Text → Bool
differ none none = false
differ none (some v) = true
differ (some u) none = true
differ (some u) (some v) = not (text_eq u v)

-- Whether two trees hold a path differently.
unfoldable pub differs : Tree → Tree → Text → Bool
differs a b path = differ (lookup path a) (lookup path b)

-- The paths that two trees hold differently.
unfoldable pub diff_paths : Tree → Tree → List Text
diff_paths a b = keep (differs a b) (keys a ++ keys b)
