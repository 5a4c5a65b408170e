-- ===== src/Views.antt =====
-- nontainer/views.py: the class `ViewFS`, a filesystem narrowed to a subset of the tree beneath it.
pub mod Reads
pub mod Widened
pub mod Leads
pub mod Guarded
pub mod Admitted
pub mod Examples
use nontainer.Prelude.{
  Text, concat, ℕ, Bool, true, false, List, Option, none, some, [], ◌∷◌, ◌++◌, if◌then◌else◌, ◌==◌,
  text_eq, is_empty, starts_with, ◌||◌, ◌&&◌, not, any, sorted_set, keep, is_some, map,
}
use nontainer.Paths.{normpath, join_path, dirname}

-- What a call asks of the filesystem beneath: the working directory, what exists, and, where the
-- backend has them, where a path resolves to (`none` where that raises) and what is a link.
pub record Fs : Type 0 where
  pub cwd : Text
  pub present : Text → Bool
  pub realpath : Option (Text → Option Text)
  pub islink : Option (Text → Option Bool)

-- The view: what it shows, the workspace's root, and the views that its callback was called with,
-- the last one first, where it has a callback.
pub record View : Type 0 where
  pub paths : List Text
  pub root : Option Text
  pub recorded : Option (List (List Text))

-- `ViewFS(fs, paths, extend=..., root=...)`
unfoldable pub narrow : List Text → Bool → Option Text → View
narrow paths extend root = record {
  paths = sorted_set paths;
  root = elim root [ none ↦ none | some r ↦ some (normpath r) ];
  recorded = if extend then some [] else none;
}

-- `_abs`
unfoldable pub abs : Fs → Text → Text
abs fs path =
    if starts_with (concat "/") path then normpath path else normpath (join_path fs.cwd path)

-- `path.startswith(top + "/")`
unfoldable pub below : Text → Text → Bool
below top path = starts_with (top ++ concat "/") path

abbrev pub on_root : Option Text → Text → Bool
on_root none target = false
on_root (some root) target = text_eq target root || below target root

-- Whether an entry of the view shows the path: at it, below it, or on the way to it.
unfoldable pub shows : Text → Text → Bool
shows target entry = (text_eq target entry || below entry target) || below target entry

-- `_visible_abs`
unfoldable pub visible_abs : View → Text → Bool
visible_abs v target =
    (text_eq target (concat "/") || on_root v.root target) || any (shows target) v.paths

-- `_visible`
unfoldable pub visible : Fs → View → Text → Bool
visible fs v path = visible_abs v (abs fs path)

abbrev pub link_escapes : Fs → Text → Bool
link_escapes fs path = elim fs.islink [
  | none ↦ false
  | some islink ↦ elim (islink path) [ none ↦ false | some b ↦ b ]
]

-- `_escapes`
unfoldable pub escapes : Fs → View → Text → Bool
escapes fs v path = elim fs.realpath [
  | none ↦ link_escapes fs path
  | some realpath ↦ elim (realpath path) [
    | none ↦ link_escapes fs path
    | some resolved ↦
        let target = abs fs resolved in
        if text_eq target (abs fs path) then false else not (visible_abs v target)
  ]
]

-- `_reachable`
unfoldable pub reachable : Fs → View → Text → Bool
reachable fs v path = visible fs v path && not (escapes fs v path)

unfoldable pub reachable_abs : Fs → View → Text → Bool
reachable_abs fs v target = visible_abs v target && not (escapes fs v target)

-- `_widen`
unfoldable pub widen : List Text → View → View
widen targets v =
    let paths = sorted_set (v.paths ++ targets) in
    record v {
      paths = paths;
      recorded = elim v.recorded [ none ↦ none | some log ↦ some (paths ∷ log) ];
    }

-- How a guard ends: it returns, or raises `PermissionError` or `FileNotFoundError`.
pub data Guard : Type 0 where
  allowed refused missing : Guard

-- `_guard_write`
unfoldable pub guard_write : Fs → Text → View → Guard × View
guard_write fs path v =
    let target = abs fs path in
    if escapes fs v path
    then (refused, v)
    else if visible_abs v target
    then (allowed, v)
    else if fs.present path
    then (refused, v)
    else (allowed, widen (target ∷ []) v)

-- `_guard_change`
unfoldable pub guard_change : Fs → Text → View → Guard
guard_change fs path v =
    if escapes fs v path
    then refused
    else if visible fs v path
    then allowed
    else if fs.present path
    then refused
    else missing

-- The guard of `write_many`: the paths in turn, up to one that is refused.
unfoldable pub guard_writes : Fs → List Text → View → Guard × View
guard_writes fs [] v = (allowed, v)
guard_writes fs (path ∷ paths) v =
    let (g, v') = guard_write fs path v in
    let rest = guard_writes fs paths v' in
    elim g [ allowed ↦ rest | refused ↦ (refused, v') | missing ↦ (missing, v') ]

-- The guard of `rename` and `replace`.
unfoldable pub guard_rename : Fs → Text → Text → View → Guard × View
guard_rename fs src dst v = elim (guard_change fs src v) [
  | allowed ↦ guard_write fs dst v
  | refused ↦ (refused, v)
  | missing ↦ (missing, v)
]

-- Where the link that `_guard_alias` is asked about will lead.
unfoldable pub alias_target : Fs → Text → Text → Text
alias_target fs target dst =
    normpath
      (if starts_with (concat "/") target then target else join_path (dirname (abs fs dst)) target)

-- `_guard_alias`
unfoldable pub guard_alias : Fs → Text → Text → View → Guard × View
guard_alias fs target dst v =
    let w = alias_target fs target dst in
    if not (visible_abs v w) && fs.present w then (refused, v) else guard_write fs dst v

-- `refuse_reason`, whether there is one.
unfoldable pub refuse_reason : Fs → View → Text → Bool
refuse_reason fs v path = not (visible fs v path) && fs.present path

-- The absolute forms of the paths that the view hides, as a sorted set.
unfoldable pub hidden_of : Fs → View → List Text → List Text
hidden_of fs v paths = sorted_set (map (abs fs) (keep (λ p. not (visible fs v p)) paths))

-- `admit`
unfoldable pub admit : Fs → List Text → View → Guard × View
admit fs paths v =
    let new = hidden_of fs v paths in
    if any (refuse_reason fs v) paths
    then (refused, v)
    else (allowed, if is_empty new then v else widen new v)

-- `show`
unfoldable pub show : Fs → List Text → View → List Text × View
show fs paths v =
    let hidden = hidden_of fs v paths in (hidden, if is_empty hidden then v else widen hidden v)

-- `reset`
unfoldable pub reset : List Text → View → View
reset paths v = record v { paths = sorted_set paths }
