-- ===== src/Refs.antt =====
-- nontainer/store/refs.py: the class `Ref`, a pointer `session@commit:/path` into a store.
pub mod RoundTrip
pub mod Examples
use nontainer.Prelude.{
  Text, concat, ℕ, Bool, true, false, Option, none, some, [], ◌∷◌, ◌++◌, if◌then◌else◌, ◌==◌,
  is_empty, starts_with, drop, length, ◌||◌, not, contains_code,
}

pub record Ref : Type 0 where
  pub session : Text
  pub commit : Text
  pub path : Option Text

-- `text.partition(c)`: what stands before the first `c`, whether there is one, and what follows.
unfoldable pub partition : ℕ → Text → Text × Bool × Text
partition c [] = ([], false, [])
partition c (d ∷ s) =
    let (before, found, after) = partition c s in
    if d == c then ([], true, s) else (d ∷ before, found, after)

-- `text.rpartition(c)`, where there is a `c`.
unfoldable pub partition_last : ℕ → Text → Option (Text × Text)
partition_last c [] = none
partition_last c (d ∷ s) = elim (partition_last c s) [
  | some (before, after) ↦ some (d ∷ before, after)
  | none ↦ if d == c then some ([], s) else none
]

abbrev pub path_of : Bool → Text → Option Text
path_of found path = if not found || is_empty path then none else some path

abbrev pub ref_of : Option (Text × Text) → Option Text → Option Ref
ref_of none path = none
ref_of (some (session, commit)) path =
    if is_empty session || is_empty commit
    then none
    else some (record { session = session; commit = commit; path = path })

-- `Ref.parse` of a string; `none` where it raises.
unfoldable pub parse : Text → Option Ref
parse text =
    let (base, found, path) = partition 58 text in
    if contains_code 64 text then ref_of (partition_last 64 base) (path_of found path) else none

-- `str(ref)`
unfoldable pub show_ref : Ref → Text
show_ref ref =
    let base = ref.session ++ (64 ∷ ref.commit) in
    elim ref.path [ none ↦ base | some [] ↦ base | some (c ∷ path) ↦ base ++ (58 ∷ c ∷ path) ]

abbrev pub tag_ref_prefix : Text
tag_ref_prefix = concat "@store/tag/"

-- `Ref.tag`
unfoldable pub tag : Ref → Option Text
tag ref =
    if starts_with tag_ref_prefix ref.session
    then some (drop (length tag_ref_prefix) ref.session)
    else none

-- `Ref.at_tag`
unfoldable pub at_tag : Text → Text → Ref
at_tag name commit = record { session = tag_ref_prefix ++ name; commit = commit; path = none }
