-- ===== src/Views/Reads.antt =====
-- The reads of nontainer/views.py's `ViewFS`: which calls it forwards, and what it leaves out of
-- what the filesystem beneath answers. `none` is `FileNotFoundError`.
use nontainer.Prelude.{
  Text, concat, Bool, List, Option, none, some, if◌then◌else◌, ◌&&◌, any, keep, contains_code,
}
use nontainer.Paths.{normpath, join_path}
use nontainer.Views.{
  Fs, View, Guard, allowed, missing, abs, visible_abs, visible, reachable, reachable_abs,
  guard_write,
}

-- `read`, `stat`, `getsize`, `readlink`: what the filesystem beneath answers, for a path in reach.
unfoldable pub read {ℓ} : {A : Type ℓ} → Fs → View → (Text → A) → Text → Option A
read fs v answer path = if reachable fs v path then some (answer path) else none

-- `exists`, `isfile`, `isdir`, `access`
unfoldable pub test : Fs → View → (Text → Bool) → Text → Bool
test fs v answer path = reachable fs v path && answer path

-- `samefile`
unfoldable pub same_file : Fs → View → (Text → Text → Bool) → Text → Text → Option Bool
same_file fs v answer path1 path2 =
    if reachable fs v path1 && reachable fs v path2 then some (answer path1 path2) else none

-- `read_many` and `glob`: those of the paths that are in reach.
unfoldable pub in_reach : Fs → View → List Text → List Text
in_reach fs v paths = keep (reachable fs v) paths

-- `list`, with the entries that the filesystem beneath lists.
unfoldable pub list_dir : Fs → View → (Text → List Text) → Text → Option (List Text)
list_dir fs v entries path =
    if reachable fs v path
    then some (keep (λ e. reachable_abs fs v (normpath (join_path (abs fs path) e))) (entries path))
    else none

-- The guard of `open`: a mode with one of the letters w, a, x and + writes.
unfoldable pub guard_open : Fs → Text → Text → View → Guard × View
guard_open fs path mode v =
    if any (λ c. contains_code c mode) (concat "wax+")
    then guard_write fs path v
    else if reachable fs v path
    then (allowed, v)
    else (missing, v)

-- `realpath`, with what the backend's answers.
unfoldable pub real_path : Fs → View → (Text → Text) → Text → Option Text
real_path fs v answer path =
    if visible_abs v (abs fs (answer path)) then some (answer path) else none

-- `chdir`: where the working directory goes, by the filesystem beneath.
unfoldable pub change_dir : Fs → View → Text → Option Text
change_dir fs v path = if visible fs v path then some (abs fs path) else none
