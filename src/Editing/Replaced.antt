-- ===== src/Editing/Replaced.antt =====
-- What an edit of nontainer/editing.py that replaces one place changes.
use nontainer.Prelude.{
  Text, ℕ, ◌+◌, Bool, true, false, List, [], ◌∷◌, ◌++◌, ◌≡◌, refl, sym, ap, ◌∙◌, ltb, starts_with,
  starts_with_split, text_eq, length, length-append, take, drop, take-length-append,
  drop-length-append, append_assoc, All, map, strip_right, Bool-cases, inl, inr, arith,
}
use nontainer.Editing.Matching.{
  Matcher, literal, lines_match, trailing_ws_pattern, count_matches, replace_first,
}
use nontainer.Editing.Nowhere.{Over}
use nontainer.Editing.Absent.{
  Absent, quoted, NoneTrailing, found_literal, missing-Absent, missing-NoneTrailing, contained,
}
use nontainer.Editing.Trailing.{Trailing, lines_match-Matched, Trailing-lines_match}
use nontainer.Editing.Indent.{Match, indent_flexible_matches, reindent}
use nontainer.Editing.Edit.{
  Mode, EditOutcome, Edited, by_matcher, splice_each, contains, if_applied, by_blocks, apply_edit,
}
use nontainer.Editing.Blocks.{Block, Filled, split_lines-Filled, indent_flexible_matches-All}
use nontainer.Editing.First.{first_found}
use nontainer.Editing.Moved.{Moved, reindent-Moved}

-- What an edit of one place changes: one stretch of the content, in the one place where the search is
-- found, and nothing where the text to put there is there already. A place is the one place where each
-- other one overlaps it.
pub data Replaced (blank : ℕ → Bool) (content old new : Text) (o : EditOutcome) : Type 0 where
  exactly :
      (a b : Text)
      → content ≡ a ++ (old ++ b)
      → ((a' b' : Text) → content ≡ a' ++ (old ++ b') → Over a (length old) a')
      → o ≡ record { content = a ++ (new ++ b); count = 1; mode = Mode.exact }
      → Replaced blank content old new o
  but_trailing :
      Absent old content
      → (a m b : Text) → content ≡ a ++ (m ++ b)
      → Trailing (quoted blank old) m
      → ((a' m' b' : Text)
          → Trailing (quoted blank old) m'
          → content ≡ a' ++ (m' ++ b')
          → Over a (length m) a')
      → o ≡ record { content = a ++ (new ++ b); count = 1; mode = Mode.trailing_ws }
      → Replaced blank content old new o
  but_indent :
      Absent old content
      → NoneTrailing blank old content
      → (a b block : Text) (x : Match) → content ≡ a ++ (block ++ b)
      → indent_flexible_matches blank old content ≡ x ∷ []
      → Block blank old content x
      → x.1.1 ≡ block
      → Moved blank new (reindent blank new old block)
      → o ≡ record {
        content = a ++ (reindent blank new old block ++ b);
        count = 1;
        mode = Mode.indent_flexible;
      }
      → Replaced blank content old new o
  already :
      Absent old content
      → NoneTrailing blank old content
      → indent_flexible_matches blank old content ≡ []
      → (a b : Text) → content ≡ a ++ (new ++ b)
      → o ≡ record { content = content; count = 0; mode = Mode.already_applied }
      → Replaced blank content old new o

once : Mode → Text → EditOutcome
once mode content = record { content = content; count = 1; mode = mode }

outcome_of : EditOutcome → Edited → EditOutcome
outcome_of o (Edited.edited p) = p
outcome_of o Edited.identical = o
outcome_of o (Edited.ambiguous n) = o
outcome_of o Edited.not_found = o

-- Where one place is replaced, there is one match.
by_matcher_one :
    (m : Matcher) (mode : Mode) (content new : Text) (o : EditOutcome)
    → ltb 0 (count_matches m 0 content) ≡ true
    → by_matcher m mode false content new ≡ Edited.edited o
    → (count_matches m 0 content ≡ 1)
      × (o ≡ record { content = replace_first m new content; count = 1; mode = mode })
unfolding outcome_of
by_matcher_one m mode content new o h e = elim (Bool-cases (ltb 1 (count_matches m 0 content))) [
  | inl many ↦ absurd (cc (rw (many) at e))
  | inr few ↦ (ground arith, sym (ap (outcome_of o) (rw (few) at e)))
]

by_literal-Replaced :
    (blank : ℕ → Bool) (content old new : Text) (o : EditOutcome)
    → ltb 0 (count_matches (literal old) 0 content) ≡ true
    → by_matcher (literal old) Mode.exact false content new ≡ Edited.edited o
    → Replaced blank content old new o
unfolding literal once
by_literal-Replaced blank content old new o h e =
    let (one, is_o) = by_matcher_one (literal old) Mode.exact content new o h e in
    let f = first_found (literal old) new content h in
    elim (Bool-cases (starts_with old f.at)) [
      | inr other ↦ absurd (cc (rw (other, literal) at f.found))
      | inl begins ↦
          let (rest, g) = starts_with_split old f.at begins in
          let size : length old ≡ f.size = cc (rw (begins, literal) at f.found) in
          let after : drop f.size f.at ≡ rest =
            ap (λ n. drop n f.at) (sym size)
            ∙ (ap (drop (length old)) g ∙ drop-length-append old rest) in
          Replaced.exactly f.before rest (f.whole ∙ ap (λ u. f.before ++ u) g)
            (λ a' b' w. rw (size) (f.alone one a' (old ++ b') (sym w) (found_literal old b')))
            (is_o ∙ ap (once Mode.exact) (f.result ∙ ap (λ u. f.before ++ (new ++ u)) after))
    ]

by_trailing-Replaced :
    (blank : ℕ → Bool) (content old new : Text) (o : EditOutcome)
    → ltb 0 (count_matches (trailing_ws_pattern blank old) 0 content) ≡ true
    → by_matcher (trailing_ws_pattern blank old) Mode.trailing_ws false content new
      ≡ Edited.edited o
    → Absent old content
    → Replaced blank content old new o
unfolding once trailing_ws_pattern Filled
by_trailing-Replaced blank content old new o h e absent =
    let p = trailing_ws_pattern blank old in
    let (one, is_o) = by_matcher_one p Mode.trailing_ws content new o h e in
    let f = first_found p new content h in
    let (l, (ls, g)) = split_lines-Filled old in
    let lines : quoted blank old ≡ strip_right blank l ∷ map (strip_right blank) ls =
      ap (map (strip_right blank)) g in
    let m =
      lines_match-Matched (strip_right blank l) (map (strip_right blank) ls) f.at f.size
        (ap (λ q. lines_match q f.at) (sym lines) ∙ f.found) in
    let behind : drop f.size f.at ≡ m.behind =
      ap (λ n. drop n f.at) m.size
      ∙ (ap (drop (length m.text)) m.whole ∙ drop-length-append m.text m.behind) in
    Replaced.but_trailing absent f.before m.text m.behind
      (f.whole ∙ ap (λ u. f.before ++ u) m.whole) (rw (lines) m.lines)
      (λ a' m' b' tr w.
        rw (← m.size)
          (f.alone one a' (m' ++ b') (sym w) (Trailing-lines_match (quoted blank old) m' b' tr)))
      (is_o ∙ ap (once Mode.trailing_ws) (f.result ∙ ap (λ u. f.before ++ (new ++ u)) behind))

if_applied-Replaced :
    (blank : ℕ → Bool) (content old new : Text) (o : EditOutcome)
    → Absent old content
    → NoneTrailing blank old content
    → indent_flexible_matches blank old content ≡ []
    → if_applied blank content new ≡ Edited.edited o
    → Replaced blank content old new o
unfolding outcome_of
if_applied-Replaced blank content old new o absent lacking none_there e =
    elim (Bool-cases (contains new content)) [
      | inl there ↦
          let (a, b, w) = contained new content there in
          Replaced.already absent lacking none_there a b w
            (sym (ap (outcome_of o) (rw (there) at e)))
      | inr not_there ↦ absurd (cc (rw (not_there) at e))
    ]

spliced :
    (f : Text → Text) (a block b : Text) (start fin : ℕ)
    → start ≡ length a
    → fin ≡ start + length block
    → splice_each f ((start, (fin, block)) ∷ []) (a ++ (block ++ b)) ≡ a ++ (f block ++ b)
unfolding splice_each
spliced f a block b start fin e g =
    let ends : fin ≡ length (a ++ block) =
      g ∙ (ap (λ n. n + length block) e ∙ sym (length-append a block)) in
    let first : take start (a ++ (block ++ b)) ≡ a =
      ap (λ n. take n (a ++ (block ++ b))) e ∙ take-length-append a (block ++ b) in
    let last : drop fin (a ++ (block ++ b)) ≡ b =
      ap (λ n. drop n (a ++ (block ++ b))) ends
      ∙ (ap (drop (length (a ++ block))) (sym (append_assoc a block b))
          ∙ drop-length-append (a ++ block) b) in
    ap (λ t. t ++ (f block ++ drop fin (a ++ (block ++ b)))) first
    ∙ ap (λ t. a ++ (f block ++ t)) last

by_one-Replaced :
    (blank : ℕ → Bool) (content old new : Text) (o : EditOutcome) (x : Match)
    → Absent old content
    → NoneTrailing blank old content
    → indent_flexible_matches blank old content ≡ x ∷ []
    → Block blank old content x
    → Edited.edited
        (once Mode.indent_flexible (splice_each (reindent blank new old) (x ∷ []) content))
      ≡ Edited.edited o
    → Replaced blank content old new o
unfolding outcome_of once
by_one-Replaced blank content old new o (start, (fin, block)) absent lacking only h e =
    let p = h.placed in
    Replaced.but_indent absent lacking p.before p.after block (start, (fin, block)) p.whole only h
      refl (reindent-Moved blank new old block)
      (sym (ap (outcome_of o) e)
        ∙ ap (once Mode.indent_flexible) (
            ap (splice_each (reindent blank new old) ((start, (fin, block)) ∷ [])) p.whole
            ∙ spliced (reindent blank new old) p.before block p.after start fin p.begins h.fin))

by_blocks-Replaced :
    (blank : ℕ → Bool) (content old new : Text) (o : EditOutcome) (ms : List Match)
    → Absent old content
    → NoneTrailing blank old content
    → indent_flexible_matches blank old content ≡ ms
    → All (Block blank old content) ms
    → by_blocks blank ms content old new false ≡ Edited.edited o
    → Replaced blank content old new o
unfolding once
by_blocks-Replaced blank content old new o [] absent lacking only h e =
    if_applied-Replaced blank content old new o absent lacking only e
by_blocks-Replaced blank content old new o (x ∷ []) absent lacking only (h, _) e =
    by_one-Replaced blank content old new o x absent lacking only h e
by_blocks-Replaced blank content old new o (x ∷ y ∷ ms) absent lacking only h e = absurd (cc)

-- An edit of one place that succeeds changes one stretch of the content and nothing else. It is where the
-- search is found, and each other place of it overlaps this one; or, where it is nowhere, where its lines
-- are found without the white space at their ends, each with spaces and tabs behind it, and each other
-- place of these overlaps this one; or, where these are nowhere either, the one block that the scan of
-- the content's lines finds, whose lines are the search's but for the white space around them, and the
-- text put there is moved by `_reindent`, each line of it as it was but for the white space in front. Or, where that scan finds none, it changes
-- nothing, since the text to put is there already.
pub apply_edit-Replaced :
    (blank : ℕ → Bool) (content old new : Text) (o : EditOutcome)
    → apply_edit blank content old new false ≡ Edited.edited o
    → Replaced blank content old new o
unfolding apply_edit
apply_edit-Replaced blank content old new o e = elim (Bool-cases (text_eq old new)) [
  | inl same ↦ absurd (cc (rw (same, apply_edit) at e))
  | inr differ ↦ elim (Bool-cases (ltb 0 (count_matches (literal old) 0 content))) [
    | inl found ↦
        by_literal-Replaced blank content old new o found (rw (differ, found, apply_edit) at e)
    | inr missing ↦
        elim (Bool-cases (ltb 0 (count_matches (trailing_ws_pattern blank old) 0 content))) [
          | inl found ↦
              by_trailing-Replaced blank content old new o found
                (rw (differ, missing, found, apply_edit) at e) (missing-Absent old content missing)
          | inr lacking ↦
              by_blocks-Replaced blank content old new o (indent_flexible_matches blank old content)
                (missing-Absent old content missing)
                (missing-NoneTrailing blank old content lacking) refl
                (indent_flexible_matches-All blank old content)
                (rw (differ, missing, lacking, apply_edit) at e)
        ]
  ]
]
