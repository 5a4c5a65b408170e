-- ===== src/Editing/Absent.antt =====
-- Where the searches of nontainer/editing.py find nothing.
use nontainer.Prelude.{
  Text, ℕ, Bool, true, false, List, [], ◌++◌, ◌≡◌, refl, sym, ap, ◌∙◌, ltb, map, starts_with,
  starts_with_split, starts_with-append, strip_right, is_some, Bool-cases, inl, inr, arith,
}
use nontainer.Editing.Matching.{
  Matcher, literal, split_lines, lines_match, trailing_ws_pattern, count_matches,
}
use nontainer.Editing.Nowhere.{nowhere}
use nontainer.Editing.Trailing.{Trailing, Trailing-lines_match}
use nontainer.Editing.Edit.{contains}
use nontainer.Editing.First.{first_found}

abbrev pub Absent : Text → Text → Type 0
Absent needle content = (a b : Text) → content ≡ a ++ (needle ++ b) → ⊥

-- The search's lines without the white space at their ends.
abbrev pub quoted : (ℕ → Bool) → Text → List Text
quoted blank old = map (strip_right blank) (split_lines old)

abbrev pub NoneTrailing : (ℕ → Bool) → Text → Text → Type 0
NoneTrailing blank old content =
    (a m b : Text) → Trailing (quoted blank old) m → content ≡ a ++ (m ++ b) → ⊥

pub found_literal : (needle b : Text) → is_some (literal needle (needle ++ b)) ≡ true
unfolding literal
found_literal needle b = rw (starts_with-append needle b) refl

-- Where a search counts no match, none begins anywhere.
none_begins :
    (m : Matcher) (content a t : Text)
    → ltb 0 (count_matches m 0 content) ≡ false
    → content ≡ a ++ t
    → is_some (m t) ≡ true
    → ⊥
none_begins m content a t h w s =
    let none_there : count_matches m 0 (a ++ t) ≡ 0 =
      ap (count_matches m 0) (sym w) ∙ ground (arith) in
    absurd (omega (arith, nowhere m a t 0 none_there s))

pub missing-Absent :
    (needle content : Text)
    → ltb 0 (count_matches (literal needle) 0 content) ≡ false
    → Absent needle content
missing-Absent needle content h a b w =
    none_begins (literal needle) content a (needle ++ b) h w (found_literal needle b)

pub missing-NoneTrailing :
    (blank : ℕ → Bool) (old content : Text)
    → ltb 0 (count_matches (trailing_ws_pattern blank old) 0 content) ≡ false
    → NoneTrailing blank old content
unfolding trailing_ws_pattern
missing-NoneTrailing blank old content h a m b tr w =
    none_begins (lines_match (quoted blank old)) content a (m ++ b) h w
      (Trailing-lines_match (quoted blank old) m b tr)

-- Where a text is contained in another.
pub contained :
    (needle content : Text)
    → contains needle content ≡ true
    → (a : Text) × (b : Text) × (content ≡ a ++ (needle ++ b))
unfolding contains literal
contained needle content h =
    let f = first_found (literal needle) [] content h in
    elim (Bool-cases (starts_with needle f.at)) [
      | inr other ↦ absurd (cc (rw (other, literal) at f.found))
      | inl begins ↦
          let (rest, g) = starts_with_split needle f.at begins in
          (f.before, rest, f.whole ∙ ap (λ u. f.before ++ u) g)
    ]
