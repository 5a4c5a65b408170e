-- ===== src/Editing/Moved.antt =====
-- What `_reindent` of nontainer/editing.py keeps of a text: everything but the indents of its lines.
use nontainer.Prelude.{
  Text, ℕ, zero, suc, ◌+◌, ◌-◌, ◌/◌, ◌%◌, Bool, true, false, List, [], ◌∷◌, ◌++◌, ◌≡◌, ◌⊎◌, refl,
  ◌==◌, is_empty, strip_left, Bool-cases, inl, inr,
}
use nontainer.Editing.Matching.{split_lines}
use nontainer.Editing.Indent.{join_lines, Shift, adjust, indent_of, repeat, width, reindent}
use nontainer.Editing.Line.{Spaces}

-- A line whose white space in front gave way to spaces and tabs, or which held no more and is empty now.
pub MovedLine : (ℕ → Bool) → Text → Text → Type 0
MovedLine blank l l' =
    ((is_empty (strip_left blank l) ≡ true) × (l' ≡ []))
    ⊎ ((is_empty (strip_left blank l) ≡ false)
        × (gap : Text) × Spaces gap
        × (l' ≡ gap ++ strip_left blank l))

pub AllMoved : (ℕ → Bool) → List Text → List Text → Type 0
AllMoved blank [] [] = Unit
AllMoved blank [] (k ∷ ks) = ⊥
AllMoved blank (l ∷ ls) [] = ⊥
AllMoved blank (l ∷ ls) (k ∷ ks) = MovedLine blank l k × AllMoved blank ls ks

-- A text whose lines are those of another, each moved.
pub record Moved (blank : ℕ → Bool) (source t : Text) : Type 0 where
  pub lines : List Text
  pub joined_up : t ≡ join_lines lines
  pub moved : AllMoved blank (split_lines source) lines

Spaces-append : (s t : Text) → Spaces s → Spaces t → Spaces (s ++ t)
unfolding Spaces
Spaces-append [] t h g = g
Spaces-append (c ∷ s) t (e, h) g = (e, Spaces-append s t h g)

module _ (blank : ℕ → Bool) where
  Spaces-repeat : (n c : ℕ) → (c ≡ 32) ⊎ (c ≡ 9) → Spaces (repeat blank n c)
  unfolding Spaces
  Spaces-repeat zero c h = tt
  Spaces-repeat (suc n) c h = (h, Spaces-repeat n c h)

  Spaces-indent_of : (char n : ℕ) → Spaces (indent_of blank char n)
  Spaces-indent_of char n = elim (Bool-cases (char == 9)) [
    | inl e ↦ rw (e) (
        Spaces-append (repeat blank (n / 4) 9) (repeat blank (n % 4) 32)
          (Spaces-repeat (n / 4) 9 (inr refl)) (Spaces-repeat (n % 4) 32 (inl refl)))
    | inr e ↦ rw (e) (Spaces-repeat n 32 (inl refl))
  ]

  AllMoved-adjust :
      (char : ℕ) (shift : ℕ → Shift) (i : ℕ) (ls : List Text)
      → AllMoved blank ls (adjust blank char shift i ls)
  unfolding AllMoved MovedLine
  AllMoved-adjust char shift i [] = tt
  AllMoved-adjust char shift i (l ∷ ls) = elim (Bool-cases (is_empty (strip_left blank l))) [
    | inl e ↦ rw (e) (inl (e, refl), AllMoved-adjust char shift (suc i) ls)
    | inr e ↦
        let n = (width blank l + (shift i).0) - (shift i).1 in
        rw (e) (
          inr (e, indent_of blank char n, Spaces-indent_of char n, refl),
          AllMoved-adjust char shift (suc i) ls,
        )
  ]

  -- A text that is moved keeps each of its lines, but for the white space in front.
  pub reindent-Moved : (new old block : Text) → Moved blank new (reindent blank new old block)
  unfolding reindent
  reindent-Moved new old block = record {
    lines = _;
    joined_up = refl;
    moved = AllMoved-adjust _ _ 0 (split_lines new);
  }
