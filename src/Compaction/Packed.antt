-- ===== src/Compaction/Packed.antt =====
-- What `chunks` of nontainer/compaction.py makes of a history.
use nontainer.Prelude.{
  ℕ, ◌+◌, ◌≤◌, ◌<◌, true, false, List, some, inl, inr, [], ◌∷◌, ◌++◌, ◌≡◌, refl, map, All, is_empty,
  ltb, arith, length-append, length-take_le, Bool-cases, ◌⊎◌, take, ◌-◌, ◌*◌, append_assoc,
}
use nontainer.Compaction.Items.{Item, estimate_tokens}
use nontainer.Compaction.Chunks.{cost, fit, pack, chunks, cut_note}
use nontainer.Compaction.Cut.{AllCut, fit-AllCut}

pub join : List (List Item) → List Item
join [] = []
join (c ∷ cs) = c ++ join cs

pub size_of : List Item → ℕ
size_of [] = 0
size_of (i ∷ is) = cost i + size_of is

-- The cost of the first item of the first chunk.
pub first_cost : List (List Item) → ℕ
first_cost [] = 0
first_cost ([] ∷ cs) = 0
first_cost ((i ∷ c) ∷ cs) = cost i

-- Each chunk is full: the next one's first item would have taken it over the limit.
pub Tight : ℕ → List (List Item) → Type 0
Tight limit [] = Unit
Tight limit (c ∷ []) = Unit
Tight limit (c ∷ d ∷ cs) = (limit < size_of c + first_cost (d ∷ cs)) × Tight limit (d ∷ cs)

pub Bounded : ℕ → List Item → Type 0
Bounded limit c = (is_empty c ≡ false) × (size_of c ≤ limit)

pub record Packed (limit : ℕ) (items : List Item) (out : List (List Item)) : Type 0 where
  pub joined : AllCut limit items (join out)
  pub bounded : All (Bounded limit) out
  pub tight : Tight limit out

size_of-append : (xs ys : List Item) → size_of (xs ++ ys) ≡ size_of xs + size_of ys
unfolding size_of
size_of-append [] ys = omega arith
size_of-append (x ∷ xs) ys = omega (arith, size_of-append xs ys)

is_empty-append_one : (xs : List Item) (y : Item) → is_empty (xs ++ y ∷ []) ≡ false
is_empty-append_one [] y = refl
is_empty-append_one (x ∷ xs) y = refl

cost-fit_le : (limit : ℕ) (item : Item) → 8 ≤ limit → cost (fit limit item) ≤ limit
unfolding fit cost estimate_tokens
cost-fit_le limit item h = ground (
  arith,
  length-append (take ((limit - 4) * 4 - 40) item.text) cut_note,
  length-take_le ((limit - 4) * 4 - 40) item.text,
)

module _ (limit : ℕ) where
  -- A step of the loop closes the chunk, or adds the item to it.
  pack_cases :
      (item : Item) (items current : List Item) (size : ℕ)
      → ((is_empty current ≡ false)
          × (limit < size + cost (fit limit item))
          × (pack limit (item ∷ items) current size
              ≡ current ∷ pack limit items (fit limit item ∷ []) (cost (fit limit item))))
        ⊎ (((is_empty current ≡ true) ⊎ (size + cost (fit limit item) ≤ limit))
            × (pack limit (item ∷ items) current size
                ≡ pack limit items (current ++ fit limit item ∷ []) (size + cost (fit limit item))))
  unfolding pack
  pack_cases item items [] size = inr (inl refl, refl)
  pack_cases item items (i ∷ current) size =
      elim (Bool-cases (ltb limit (size + cost (fit limit item)))) [
        | inl over ↦ inl (refl, ground arith, rw (over) refl)
        | inr under ↦ inr (inr (ground arith), rw (under) refl)
      ]

  join-pack :
      (items current : List Item) (size : ℕ)
      → join (pack limit items current size) ≡ current ++ map (fit limit) items
  unfolding pack join
  join-pack [] [] size = refl
  join-pack [] (i ∷ current) size = refl
  join-pack (item ∷ items) current size = elim (pack_cases item items current size) [
    | inl (full, over, e) ↦
        rw (e, join-pack items (fit limit item ∷ []) (cost (fit limit item))) refl
    | inr (free, e) ↦
        rw (e, join-pack items (current ++ fit limit item ∷ []) (size + cost (fit limit item)))
          (append_assoc current (fit limit item ∷ []) (map (fit limit) items))
  ]

  -- The first chunk begins with the item that the loop has put in it first.
  first_cost-pack :
      (items : List Item) (i : Item) (current : List Item) (size : ℕ)
      → first_cost (pack limit items (i ∷ current) size) ≡ cost i
  unfolding pack first_cost
  first_cost-pack [] i current size = refl
  first_cost-pack (item ∷ items) i current size = elim (pack_cases item items (i ∷ current) size) [
    | inl (full, over, e) ↦ rw (e) refl
    | inr (free, e) ↦
        rw (e)
          (first_cost-pack items i (current ++ fit limit item ∷ []) (size + cost (fit limit item)))
  ]

  fits_free :
      (item : Item) (current : List Item) (size : ℕ)
      → 8 ≤ limit
      → size ≡ size_of current
      → (is_empty current ≡ true) ⊎ (size + cost (fit limit item) ≤ limit)
      → size + cost (fit limit item) ≤ limit
  unfolding size_of
  fits_free item [] size h e free = omega (arith, cost-fit_le limit item h)
  fits_free item (i ∷ current) size h e (inl full) = absurd (cc)
  fits_free item (i ∷ current) size h e (inr le) = le

  Bounded-pack :
      (items current : List Item) (size : ℕ)
      → 8 ≤ limit
      → size ≡ size_of current
      → size ≤ limit
      → All (Bounded limit) (pack limit items current size)
  unfolding pack size_of Bounded
  Bounded-pack [] [] size h e b = tt
  Bounded-pack [] (i ∷ current) size h e b = ((refl, omega arith), tt)
  Bounded-pack (item ∷ items) current size h e b = elim (pack_cases item items current size) [
    | inl (full, over, step) ↦ rw (step) (
      (full, omega arith),
      Bounded-pack items (fit limit item ∷ []) (cost (fit limit item)) h (omega arith)
          (cost-fit_le limit item h),
    )
    | inr (free, step) ↦ rw (step) (
        Bounded-pack items (current ++ fit limit item ∷ []) (size + cost (fit limit item)) h
          (omega (arith, size_of-append current (fit limit item ∷ [])))
          (fits_free item current size h e free))
  ]

  Tight-step :
      (c : List Item) (out : List (List Item)) (n : ℕ)
      → first_cost out ≡ n
      → limit < size_of c + n
      → Tight limit out
      → Tight limit (c ∷ out)
  unfolding Tight
  Tight-step c [] n e h t = tt
  Tight-step c (d ∷ out) n e h t = (omega arith, t)

  Tight-pack :
      (items current : List Item) (size : ℕ)
      → size ≡ size_of current
      → Tight limit (pack limit items current size)
  unfolding pack size_of Tight
  Tight-pack [] [] size e = tt
  Tight-pack [] (i ∷ current) size e = tt
  Tight-pack (item ∷ items) current size e = elim (pack_cases item items current size) [
    | inl (full, over, step) ↦ rw (step) (
        Tight-step current (pack limit items (fit limit item ∷ []) (cost (fit limit item)))
          (cost (fit limit item))
          (first_cost-pack items (fit limit item) [] (cost (fit limit item))) (omega arith)
          (Tight-pack items (fit limit item ∷ []) (cost (fit limit item)) (omega arith)))
    | inr (free, step) ↦ rw (step) (
        Tight-pack items (current ++ fit limit item ∷ []) (size + cost (fit limit item))
          (omega (arith, size_of-append current (fit limit item ∷ []))))
  ]

-- For a limit of 8 or more, `chunks` returns; its chunks hold one item for each of the history, in
-- order: that item itself, or, where its cost is over the limit, the item with only the first
-- `(limit - 4) * 4 - 40` codes of its text, if it has so many, and the note that it was cut; none is
-- empty or costs more than the limit, and each could not have taken the next one's first item.
pub chunks-Packed :
    (items : List Item) (limit : ℕ)
    → 8 ≤ limit
    → (out : List (List Item)) × (chunks items limit ≡ some out) × Packed limit items out
unfolding chunks size_of
chunks-Packed items limit h = (
  pack limit items [] 0,
  ground arith,
  record {
    joined = rw (join-pack limit items [] 0) (fit-AllCut limit items);
    bounded = Bounded-pack limit items [] 0 h refl (omega arith);
    tight = Tight-pack limit items [] 0 refl;
  },
)
