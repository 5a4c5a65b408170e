-- ===== src/Editing/Line.antt =====
-- A line of the pattern of nontainer/editing.py that passes over trailing white space.
use nontainer.Prelude.{
  Text, ℕ, suc, ◌+◌, true, [], ◌∷◌, ◌++◌, ◌≡◌, ◌⊎◌, ◌∙◌, refl, sym, ap, ◌==◌, ◌||◌, starts_with,
  starts_with_split, length, drop, drop-length-append, length-append, append_assoc, Bool-cases, inl,
  inr, arith,
}
use nontainer.Editing.Matching.{spaces}

-- A text of spaces and tabs.
unfoldable pub Spaces : Text → Type 0
Spaces [] = Unit
Spaces (c ∷ t) = ((c ≡ 32) ⊎ (c ≡ 9)) × Spaces t

-- How a text begins with spaces and tabs.
record Begun (t : Text) : Type 0 where
  pub gap : Text
  pub rest : Text
  pub whole : t ≡ gap ++ rest
  pub size : spaces t ≡ length gap
  pub are_spaces : Spaces gap

is_space : (c : ℕ) → ((c == 32) || (c == 9)) ≡ true → (c ≡ 32) ⊎ (c ≡ 9)
is_space c h = elim (Bool-cases (c == 32)) [
  | inl e ↦ inl (ground arith)
  | inr e ↦ inr (ground arith)
]

spaces-Begun : (t : Text) → Begun t
unfolding spaces Spaces
spaces-Begun [] = record { gap = []; rest = []; whole = refl; size = refl; are_spaces = tt }
spaces-Begun (c ∷ t) = elim (Bool-cases ((c == 32) || (c == 9))) [
  | inr no_space ↦ record {
    gap = [];
    rest = c ∷ t;
    whole = refl;
    size = rw (no_space) refl;
    are_spaces = tt;
  }
  | inl space ↦
      let b = spaces-Begun t in
      record {
        gap = c ∷ b.gap;
        rest = b.rest;
        whole = ap (λ u. c ∷ u) b.whole;
        size = rw (space) (ap suc b.size);
        are_spaces = (is_space c space, b.are_spaces);
      }
]

-- A line of the pattern at the beginning of a text, with the spaces and tabs behind it.
pub record Line (l t : Text) : Type 0 where
  pub gap : Text
  pub rest : Text
  pub whole : t ≡ (l ++ gap) ++ rest
  pub size : length l + spaces (drop (length l) t) ≡ length (l ++ gap)
  pub behind : drop (length l + spaces (drop (length l) t)) t ≡ rest
  pub are_spaces : Spaces gap

pub starts_with-Line : (l t : Text) → starts_with l t ≡ true → Line l t
starts_with-Line l t begins =
    let (u, w) = starts_with_split l t begins in
    let b = spaces-Begun u in
    let after : drop (length l) t ≡ u = ap (drop (length l)) w ∙ drop-length-append l u in
    let whole : t ≡ (l ++ b.gap) ++ b.rest =
      w ∙ (ap (λ x. l ++ x) b.whole ∙ sym (append_assoc l b.gap b.rest)) in
    let size : length l + spaces (drop (length l) t) ≡ length (l ++ b.gap) =
      omega (arith, ap spaces after, b.size, length-append l b.gap) in
    record {
      gap = b.gap;
      rest = b.rest;
      whole = whole;
      size = size;
      behind =
          ap (λ n. drop n t) size
          ∙ (ap (drop (length (l ++ b.gap))) whole ∙ drop-length-append (l ++ b.gap) b.rest);
      are_spaces = b.are_spaces;
    }

pub spaces-before : (sp t : Text) → Spaces sp → spaces (sp ++ (10 ∷ t)) ≡ length sp
unfolding spaces Spaces
spaces-before [] t h = refl
spaces-before (c ∷ sp) t (inl e, h) = rw (e) (ap suc (spaces-before sp t h))
spaces-before (c ∷ sp) t (inr e, h) = rw (e) (ap suc (spaces-before sp t h))
