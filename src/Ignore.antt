-- ===== src/Ignore.antt =====
-- nontainer/ignore.py: the paths that are never work, and the patterns that an embedder adds.
pub mod Below
pub mod Dirs
pub mod Examples
use nontainer.Prelude.{
  Text, concat, ℕ, zero, suc, ◌+◌, Bool, true, false, List, Option, none, some, [], ◌∷◌, ◌++◌,
  if◌then◌else◌, ◌==◌, ltb, length, drop, text_eq, is_empty, is_some, starts_with, strip_left,
  strip_right, contains_code, any, keep, ◌||◌, ◌&&◌, not, map,
}
use nontainer.Paths.{normpath, split_slash, join_slash}

abbrev pub ignored_dirs : List Text
ignored_dirs = concat "app/logs" ∷ concat "app/screenshots" ∷ []

-- `re.escape` of a character.
abbrev pub escape : ℕ → Text
escape c =
    if contains_code c (9 ∷ 10 ∷ 11 ∷ 12 ∷ 13 ∷ 92 ∷ concat "()[]{}?*+-|^$.&~# ")
    then 92 ∷ c ∷ []
    else c ∷ []

-- `cls.replace("\\", "\\\\")`
abbrev double_backslashes : Text → Text
double_backslashes [] = []
double_backslashes (c ∷ s) =
    let rest = double_backslashes s in if c == 92 then 92 ∷ 92 ∷ rest else c ∷ rest

abbrev negated : Text → Text
negated [] = []
negated (c ∷ s) = if c == 33 then 94 ∷ s else c ∷ s

-- What stands before the first `]` and what stands behind it.
abbrev pub to_bracket : Text → Option (Text × Text)
to_bracket [] = none
to_bracket (c ∷ s) =
    let rest = to_bracket s in
    if c == 93
    then some ([], s)
    else elim rest [ none ↦ none | some (cls, more) ↦ some (c ∷ cls, more) ]

-- The loop of `_translate` from here on. Each turn takes a character or more, so the number of
-- the characters is fuel enough.
unfoldable pub translate_from : ℕ → Text → Text
translate_from zero glob = []
translate_from (suc fuel) [] = []
translate_from (suc fuel) (c ∷ s) =
    if starts_with (concat "**/") (c ∷ s)
    then concat "(?:.*/)?" ++ translate_from fuel (drop 2 s)
    else if starts_with (concat "**") (c ∷ s)
    then concat ".*" ++ translate_from fuel (drop 1 s)
    else if c == 42
    then concat "[^/]*" ++ translate_from fuel s
    else if c == 63
    then concat "[^/]" ++ translate_from fuel s
    else elim (if c == 91 then to_bracket s else none) [
      | none ↦ escape c ++ translate_from fuel s
      | some (cls, more) ↦
          concat "["
          ++ (double_backslashes (negated cls) ++ (concat "]" ++ translate_from fuel more))
    ]

-- `_translate`
unfoldable pub translate : Text → Text
translate glob = translate_from (length glob) glob

-- A pattern: what its regex matches in full, and whether it is one for directories only.
pub record Rule : Type 0 where
  pub matches : Text → Bool
  pub dir_only : Bool

abbrev pub slash : ℕ → Bool
slash c = c == 47

pub record Patterns : Type 0 where
  pub source : List Text
  pub rules : List Rule

-- Why a path is never work.
pub data Why : Type 0 where
  outside authoring pattern_matched : Why

-- `regex` is `re.compile`: what the regex of a text matches in full, or `none` where it raises.
-- `blank` is what `strip` strips.
module _ (regex : Text → Option (Text → Bool)) (blank : ℕ → Bool) where
  -- `_compile`
  unfoldable pub compile : Text → Option Rule
  compile line =
      let body = strip_right slash line in
      let glob = translate (strip_left slash body) in
      elim (regex (if contains_code 47 body then glob else concat "(?:.*/)?" ++ glob)) [
        | none ↦ none
        | some matches ↦
            some (record { matches = matches; dir_only = not (length body == length line) })
      ]

  abbrev add_rule : Text → Option Rule → Option Patterns → Option Patterns
  add_rule line (some rule) (some ps) =
      some (record { source = line ∷ ps.source; rules = rule ∷ ps.rules })
  add_rule line _ _ = none

  -- `Patterns(lines)`; `none` where it raises.
  unfoldable pub create_patterns : List Text → Option Patterns
  create_patterns [] = some (record { source = []; rules = [] })
  create_patterns (raw ∷ lines) =
      let line = strip_left blank (strip_right blank raw) in
      let rest = create_patterns lines in
      if is_empty line || starts_with (concat "#") line
      then rest
      else if starts_with (concat "!") line
      then none
      else add_rule line (compile line) rest

-- `parts[:i]` for `i` from the number of the parts down to 1.
unfoldable pub prefixes : List Text → List (List Text)
prefixes [] = []
prefixes (part ∷ parts) = map (λ ps. part ∷ ps) (prefixes parts) ++ (part ∷ []) ∷ []

-- Whether a rule takes the path of the first parts, of `n` in all.
unfoldable pub rule_takes : ℕ → List Text → Rule → Bool
rule_takes n parts rule =
    (not rule.dir_only || ltb (length parts) n) && rule.matches (join_slash parts)

-- `Patterns.match`
unfoldable pub match : Patterns → Text → Bool
match ps rel =
    let parts = split_slash rel in
    let hit = any (λ prefix. any (rule_takes (length parts) prefix) ps.rules) (prefixes parts) in
    if is_empty ps.rules || is_empty rel then false else hit

-- Why a path relative to the root is no work.
unfoldable pub why_relative : Patterns → Text → Option Why
why_relative ps rel =
    if any (λ d. text_eq rel d || starts_with (d ++ concat "/") rel) ignored_dirs
    then some authoring
    else if match ps rel
    then some pattern_matched
    else none

-- `why_ignored`
unfoldable pub why_ignored : Text → Text → Patterns → Option Why
why_ignored path root ps =
    let norm = normpath path in
    let top = normpath (if is_empty root then concat "/" else root) in
    if text_eq top (concat "/")
    then why_relative ps (strip_left slash norm)
    else if text_eq norm top
    then none
    else if starts_with (top ++ concat "/") norm
    then why_relative ps (drop (length top + 1) norm)
    else some outside

-- `is_ignored`
unfoldable pub is_ignored : Text → Text → Patterns → Bool
is_ignored path root ps = is_some (why_ignored path root ps)

-- `drop_ignored`
unfoldable pub drop_ignored : List Text → Text → Patterns → List Text
drop_ignored paths root ps = keep (λ p. not (is_ignored p root ps)) paths
