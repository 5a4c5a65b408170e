-- ===== src/Editing/Lines.antt =====
-- The lines of a text in nontainer/editing.py, and where a block of them stands.
use nontainer.Prelude.{
  Text, ℕ, zero, suc, ◌+◌, List, [], ◌∷◌, ◌++◌, ◌≡◌, refl, sym, ap, ◌∙◌, ◌==◌, ==_iff, append_assoc,
  append-nil, length, length-append, take, drop, take-append-drop, Bool-cases, inl, inr, arith,
}
use nontainer.Editing.Matching.{split_lines, push_code}
use nontainer.Editing.Indent.{join_lines, offset}

join-push_code : (c : ℕ) (ls : List Text) → join_lines (push_code c ls) ≡ c ∷ join_lines ls
unfolding join_lines
join-push_code c [] = refl
join-push_code c (l ∷ []) = elim (Bool-cases (c == 10)) [
  | inl e ↦ rw (e) (ap (λ d. d ∷ l) (sym ((==_iff c 10).0 e)))
  | inr e ↦ rw (e) refl
]
join-push_code c (l ∷ k ∷ ls) = elim (Bool-cases (c == 10)) [
  | inl e ↦ rw (e) (ap (λ d. d ∷ (l ++ (10 ∷ join_lines (k ∷ ls)))) (sym ((==_iff c 10).0 e)))
  | inr e ↦ rw (e) refl
]

-- A text's lines joined are the text.
pub join_lines-split_lines : (t : Text) → join_lines (split_lines t) ≡ t
unfolding split_lines join_lines
join_lines-split_lines [] = refl
join_lines-split_lines (c ∷ t) =
    join-push_code c (split_lines t) ∙ ap (λ u. c ∷ u) (join_lines-split_lines t)

-- Lines with a line feed after each.
ended : List Text → Text
ended [] = []
ended (l ∷ ls) = l ++ (10 ∷ ended ls)

length-ended : (ls : List Text) → length (ended ls) ≡ offset ls
unfolding ended
length-ended [] = refl
length-ended (l ∷ ls) =
    length-append l (10 ∷ ended ls) ∙ ap (λ n. length l + suc n) (length-ended ls) ∙ omega arith

join-append :
    (ls : List Text) (k : Text) (ks : List Text)
    → join_lines (ls ++ (k ∷ ks)) ≡ ended ls ++ join_lines (k ∷ ks)
unfolding join_lines ended
join-append [] k ks = refl
join-append (l ∷ []) k ks = sym (append_assoc l (10 ∷ []) (join_lines (k ∷ ks)))
join-append (l ∷ j ∷ ls) k ks =
    ap (λ t. l ++ (10 ∷ t)) (join-append (j ∷ ls) k ks)
    ∙ sym (append_assoc l (10 ∷ ended (j ∷ ls)) (join_lines (k ∷ ks)))

-- The first lines of a text are the beginning of the text.
join_take : (n : ℕ) (ls : List Text) → (b : Text) × (join_lines ls ≡ join_lines (take n ls) ++ b)
unfolding join_lines
join_take zero ls = (join_lines ls, refl)
join_take (suc n) [] = ([], refl)
join_take (suc n) (l ∷ []) = ([], sym (append-nil l) ∙ cut_one n l)
  where
    cut_one : (n : ℕ) (l : Text) → (l ++ []) ≡ join_lines (take (suc n) (l ∷ [])) ++ []
    cut_one zero l = refl
    cut_one (suc n) l = refl
join_take (suc zero) (l ∷ k ∷ ls) = (10 ∷ join_lines (k ∷ ls), refl)
join_take (suc (suc n)) (l ∷ k ∷ ls) =
    let (b, e) = join_take (suc n) (k ∷ ls) in
    (
      b,
      ap (λ t. l ++ (10 ∷ t)) e ∙ sym (append_assoc l (10 ∷ join_lines (take (suc n) (k ∷ ls))) b),
    )

-- A block of lines stands in a text.
pub record Placed (content : Text) (start : ℕ) (block : Text) : Type 0 where
  pub before : Text
  pub after : Text
  pub whole : content ≡ before ++ (block ++ after)
  pub begins : start ≡ length before

-- A block of the lines of a text, after so many lines and not at the end of all of them.
pub lines-Placed :
    (content : Text) (start n : ℕ) (k : Text) (ks : List Text)
    → drop start (split_lines content) ≡ k ∷ ks
    → Placed content
        (offset (take start (split_lines content)))
        (join_lines (take n (drop start (split_lines content))))
lines-Placed content start n k ks e =
    let ls = split_lines content in
    let (b, f) = join_take n (drop start ls) in
    record {
      before = ended (take start ls);
      after = b;
      whole =
          sym (join_lines-split_lines content)
          ∙ (ap join_lines (sym (take-append-drop start ls))
              ∙ (ap (λ d. join_lines (take start ls ++ d)) e
                  ∙ (join-append (take start ls) k ks
                      ∙ ap (λ t. ended (take start ls) ++ t) (ap join_lines (sym e) ∙ f))));
      begins = sym (length-ended (take start ls));
    }
