-- ===== src/Editing/Edit.antt =====
-- The edit of nontainer/editing.py.
use nontainer.Prelude.{
  Text, ℕ, Bool, List, [], ◌∷◌, ◌++◌, if◌then◌else◌, ◌&&◌, not, ltb, text_eq, is_empty, length,
  take, drop,
}
use nontainer.Editing.Matching.{
  Matcher, literal, trailing_ws_pattern, count_matches, replace_matches, replace_first,
}
use nontainer.Editing.Indent.{indent_flexible_matches, reindent}

pub data Mode : Type 0 where
  exact : Mode
  trailing_ws : Mode
  indent_flexible : Mode
  already_applied : Mode

pub record EditOutcome : Type 0 where
  pub content : Text
  pub count : ℕ
  pub mode : Mode

-- What an edit comes to, or the reason of its `EditError`.
pub data Edited : Type 0 where
  edited : EditOutcome → Edited
  identical : Edited
  ambiguous : ℕ → Edited
  not_found : Edited

-- The edit by a search that has matches.
abbrev pub by_matcher : Matcher → Mode → Bool → Text → Text → Edited
by_matcher m mode all content new =
    let n = count_matches m 0 content in
    if ltb 1 n && not all
    then Edited.ambiguous n
    else Edited.edited (record {
      content = if all then replace_matches m new 0 content else replace_first m new content;
      count = if all then n else 1;
      mode = mode;
    })

-- A part of the content replaced by another text, from the last to the first.
unfoldable pub splice_each : (Text → Text) → List (ℕ × (ℕ × Text)) → Text → Text
splice_each f [] content = content
splice_each f ((start, (fin, matched)) ∷ ms) content =
    let rest = splice_each f ms content in take start rest ++ (f matched ++ drop fin rest)

unfoldable pub contains : Text → Text → Bool
contains needle t = ltb 0 (count_matches (literal needle) 0 t)

module _ (blank : ℕ → Bool) where
  abbrev pub if_applied : Text → Text → Edited
  if_applied content new =
      if contains new content
      then Edited.edited (record { content = content; count = 0; mode = Mode.already_applied })
      else Edited.not_found

  abbrev pub by_blocks : List (ℕ × (ℕ × Text)) → Text → Text → Text → Bool → Edited
  by_blocks [] content old new all = if_applied content new
  by_blocks (m ∷ ms) content old new all =
      if not (is_empty ms) && not all
      then Edited.ambiguous (length (m ∷ ms))
      else Edited.edited (record {
        content = splice_each (reindent blank new old) (if all then m ∷ ms else m ∷ []) content;
        count = length (if all then m ∷ ms else m ∷ []);
        mode = Mode.indent_flexible;
      })

  -- `apply_edit`; the words of its errors are left out.
  unfoldable pub apply_edit : Text → Text → Text → Bool → Edited
  apply_edit content old new all =
      if text_eq old new
      then Edited.identical
      else if ltb 0 (count_matches (literal old) 0 content)
      then by_matcher (literal old) Mode.exact all content new
      else if ltb 0 (count_matches (trailing_ws_pattern blank old) 0 content)
      then by_matcher (trailing_ws_pattern blank old) Mode.trailing_ws all content new
      else by_blocks (indent_flexible_matches blank old content) content old new all
