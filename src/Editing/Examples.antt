-- ===== src/Editing/Examples.antt =====
-- The theorem on nontainer/editing.py at a block quoted at another indent, and test runs.
use nontainer.Prelude.{
  Text, concat, ℕ, Bool, true, false, [], ◌∷◌, ◌++◌, ◌≡◌, refl, ◌||◌, ◌==◌, text_eq, starts_with,
}
use nontainer.Editing.Matching.{
  literal, spaces, lines_match, trailing_ws_pattern, count_matches, replace_matches, split_lines,
}
use nontainer.Editing.Indent.{
  join_lines, width, shifts, indent_flexible_matches, counterpart, reindent,
}
use nontainer.Editing.Edit.{Mode, EditOutcome, Edited, splice_each, contains, apply_edit}
use nontainer.Editing.Replaced.{Replaced, apply_edit-Replaced}

abbrev blank : ℕ → Bool
blank c = (c == 32) || ((c == 10) || ((c == 9) || (c == 13)))

abbrev lf : Text
lf = 10 ∷ []

abbrev file : Text
file = concat "  if x:" ++ (lf ++ (concat "    y" ++ lf))

abbrev quote : Text
quote = concat "if x:" ++ (lf ++ concat "  y")

abbrev put : Text
put = concat "if x:" ++ (lf ++ concat "  z")

abbrev outcome : EditOutcome
outcome = record {
  content = concat "  if x:" ++ (lf ++ (concat "    z" ++ lf));
  count = 1;
  mode = Mode.indent_flexible;
}

indented : apply_edit blank file quote put false ≡ Edited.edited outcome
unfolding apply_edit text_eq literal starts_with count_matches trailing_ws_pattern lines_match
    spaces split_lines indent_flexible_matches join_lines width shifts counterpart reindent
    splice_each contains
indented = refl

apply_edit-Replaced_example : Replaced blank file quote put outcome
apply_edit-Replaced_example = apply_edit-Replaced blank file quote put outcome indented

-- Two matches are refused, unless all of them are to be replaced.
twice : apply_edit blank (concat "a b a") (concat "a") (concat "c") false ≡ Edited.ambiguous 2
unfolding apply_edit text_eq literal starts_with count_matches
twice = refl

all_replaced :
    apply_edit blank (concat "a b a") (concat "a") (concat "c") true
    ≡ Edited.edited (record { content = concat "c b c"; count = 2; mode = Mode.exact })
unfolding apply_edit text_eq literal starts_with count_matches replace_matches
all_replaced = refl
