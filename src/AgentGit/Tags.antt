-- ===== src/AgentGit/Tags.antt =====
-- The agent's bookmarks in nontainer/agentgit.py and the refs it types, with the short ids of
-- nontainer/protocol.py.
use nontainer.Prelude.{
  Text, concat, Bool, false, List, Option, none, some, [], ◌∷◌, if◌then◌else◌, ◌||◌, ◌&&◌, not,
  ◌==◌, Dict, lookup, insert, erase, member, text_eq, is_some, is_empty, keep, leb, length, ℕ, any,
  starts_with, sorted_set,
}
use nontainer.AgentGit.Blob.{sort_tags}
use nontainer.AgentGit.Changes.{contains}
use nontainer.AgentGit.Repo.{Repo, Entry, entry_of}
use nontainer.AgentGit.Commit.{Raised, Outcome}
use nontainer.AgentGit.Record.{refusal}
use nontainer.AgentGit.Log.{is_agent_commit, walk}

abbrev digit : ℕ → Bool
digit c = leb 48 c && leb c 57

-- `[0-9a-f]`
abbrev hex : ℕ → Bool
hex c = digit c || (leb 97 c && leb c 102)

-- `[A-Za-z0-9_]`
abbrev letter : ℕ → Bool
letter c = digit c || ((leb 65 c && leb c 90) || ((leb 97 c && leb c 122) || (c == 95)))

-- `[A-Za-z0-9_./-]`
abbrev tag_letter : ℕ → Bool
tag_letter c = letter c || ((c == 46) || ((c == 47) || (c == 45)))

-- `HASH_RE.fullmatch`
unfoldable pub is_hash : Text → Bool
is_hash t = leb 7 (length t) && not (any (λ c. not (hex c)) t)

-- `SHORT_ID_RE.fullmatch`
unfoldable pub is_short_id : Text → Bool
is_short_id t = is_hash t && leb (length t) 39

-- `t.endswith(s)`, the suffix first.
unfoldable pub ends_with : Text → Text → Bool
ends_with s [] = is_empty s
ends_with s (c ∷ t) = text_eq s (c ∷ t) || ends_with s t

-- `TAG_NAME_RE.fullmatch`
unfoldable pub is_name : Text → Bool
is_name [] = false
is_name (c ∷ t) = letter c && not (any (λ d. not (tag_letter d)) t)

-- `check_tag_name`: whether it lets the name be.
unfoldable pub check_tag_name : Text → Bool
check_tag_name name =
    not (is_hash name)
    && (is_name name
        && not (
            contains (concat "..") name
            || (ends_with (concat ".") name
                || (ends_with (concat "/") name || ends_with (concat ".lock") name))))

abbrev expanded : Text → List Text → Option Text
expanded commit [] = some commit
expanded commit (m ∷ []) = some m
expanded commit (m ∷ n ∷ ms) = none

-- `expand_commit`; `none` where the id is ambiguous, which raises.
unfoldable pub expand_commit : Text → List Text → Option Text
expand_commit commit ids =
    if is_short_id commit
    then expanded commit (sorted_set (keep (starts_with commit) ids))
    else some commit

abbrev pub ids : List Entry → List Text
ids [] = []
ids (e ∷ es) = e.id ∷ ids es

abbrev pub agents_own : Option Entry → Outcome Text
agents_own none = Outcome.raised Raised.commit_not_found
agents_own (some e) = if is_agent_commit e then Outcome.done e.id else Outcome.raised Raised.invalid

abbrev pub in_history : Text → Repo → Outcome Text
in_history ref r = elim (expand_commit ref (ids r.history)) [
  | none ↦ Outcome.raised Raised.invalid
  | some found ↦ agents_own (entry_of found r.history)
]

abbrev pub in_graph : Text → Repo → Outcome Text
in_graph ref r = elim (expand_commit ref (ids (walk r.blob.head none r.history))) [
  | none ↦ Outcome.raised Raised.invalid
  | some found ↦
      if member found (ids (walk r.blob.head none r.history))
      then Outcome.done found
      else in_history ref r
]

abbrev pub tagged : Text → Repo → Outcome Text
tagged ref r = elim (lookup ref r.blob.tags) [
  | some commit ↦ Outcome.done commit
  | none ↦ if is_hash ref then in_graph ref r else Outcome.raised Raised.invalid
]

abbrev pub at_head : Repo → Outcome Text
at_head r = elim r.blob.head [
  | none ↦ Outcome.raised Raised.invalid
  | some head ↦ Outcome.done head
]

-- `AgentGit.resolve`
unfoldable pub resolve : Text → Repo → Outcome Text
resolve ref r =
    if r.indexed
    then (if text_eq ref (concat "HEAD") then at_head r else tagged ref r)
    else Outcome.raised Raised.not_supported

abbrev pub with_tags : Dict Text → Repo → Repo
with_tags tags r = record r { blob = record r.blob { tags = tags } }

abbrev pub set_tag : Text → Outcome Text → Repo → Outcome Text × Repo
set_tag name (Outcome.raised e) r = (Outcome.raised e, r)
set_tag name (Outcome.done commit) r =
    (Outcome.done commit, with_tags (sort_tags (insert name commit r.blob.tags)) r)

abbrev pub or_head : Option Text → Text
or_head none = concat "HEAD"
or_head (some ref) = ref

-- `AgentGit.tag`
unfoldable pub tag : Text → Option Text → Bool → Repo → Outcome Text × Repo
tag name ref force r = elim (refusal r) [
  | some e ↦ (Outcome.raised e, r)
  | none ↦
      if check_tag_name name && (not (is_some (lookup name r.blob.tags)) || force)
      then set_tag name (resolve (or_head ref) r) r
      else (Outcome.raised Raised.invalid, r)
]

-- `AgentGit.delete_tag`
unfoldable pub delete_tag : Text → Repo → Outcome Text × Repo
delete_tag name r = elim (refusal r) [
  | some e ↦ (Outcome.raised e, r)
  | none ↦ elim (lookup name r.blob.tags) [
    | none ↦ (Outcome.raised Raised.invalid, r)
    | some commit ↦ (Outcome.done commit, with_tags (sort_tags (erase name r.blob.tags)) r)
  ]
]
