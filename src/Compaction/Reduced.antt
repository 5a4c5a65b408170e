-- ===== src/Compaction/Reduced.antt =====
-- What `reduce` of nontainer/compaction.py leaves of a history.
use nontainer.Prelude.{
  Text, ℕ, Bool, true, false, List, [], ◌∷◌, ◌≡◌, refl, keep, ltb, Bool-cases, inl, inr, length,
}
use nontainer.Compaction.Items.{Item, ItemKind, tool_call, tool_result, said, reduce, reduce_item}

pub is_said : Item → Bool
is_said item = elim item.kind [ said ↦ true | tool_call ↦ false | tool_result ↦ false ]

pub roles : List Item → List Text
roles [] = []
roles (i ∷ is) = i.role ∷ roles is

pub kinds : List Item → List ItemKind
kinds [] = []
kinds (i ∷ is) = i.kind ∷ kinds is

pub record Reduced (items out : List Item) : Type 0 where
  pub same_roles : roles out ≡ roles items
  pub same_kinds : kinds out ≡ kinds items
  pub same_said : keep is_said out ≡ keep is_said items

-- An item as it was, or one of a tool with another text.
record Alike (i j : Item) : Type 0 where
  same_role : j.role ≡ i.role
  same_kind : j.kind ≡ i.kind
  same_item : is_said i ≡ true → j ≡ i

abbrev item_of : Text → Text → ItemKind → Item
item_of role text kind = record { role = role; text = text; kind = kind }

module _ (space : ℕ → Bool) (result_chars argument_chars : ℕ) where
  reduce_item_of :
      (role text : Text) (kind : ItemKind)
      → Alike
          (item_of role text kind)
          (reduce_item space result_chars argument_chars (item_of role text kind))
  unfolding reduce_item is_said
  reduce_item_of role text said = record {
    same_role = refl;
    same_kind = refl;
    same_item = λ h. refl;
  }
  reduce_item_of role text tool_call = elim (Bool-cases (ltb argument_chars (length text))) [
    | inl e ↦ rw (e) (record { same_role = refl; same_kind = refl; same_item = λ h. absurd (cc) })
    | inr e ↦ rw (e) (record { same_role = refl; same_kind = refl; same_item = λ h. refl })
  ]
  reduce_item_of role text tool_result = elim (Bool-cases (ltb result_chars (length text))) [
    | inl e ↦ rw (e) (record { same_role = refl; same_kind = refl; same_item = λ h. absurd (cc) })
    | inr e ↦ rw (e) (record { same_role = refl; same_kind = refl; same_item = λ h. refl })
  ]

  reduce_item-Alike :
      (item : Item) → Alike item (reduce_item space result_chars argument_chars item)
  reduce_item-Alike item = reduce_item_of item.role item.text item.kind

is_said-Alike : (i j : Item) → Alike i j → is_said j ≡ is_said i
unfolding is_said
is_said-Alike i j h = rw (h.same_kind) refl

keep-Alike :
    (i j : Item) (xs ys : List Item)
    → Alike i j
    → keep is_said ys ≡ keep is_said xs
    → keep is_said (j ∷ ys) ≡ keep is_said (i ∷ xs)
keep-Alike i j xs ys h e = elim (Bool-cases (is_said i)) [
  | inl s ↦ rw (is_said-Alike i j h, s, e, h.same_item s) refl
  | inr t ↦ rw (is_said-Alike i j h, t, e) refl
]

-- `reduce` keeps the order, the roles and the kinds of a history's items, and every item that is
-- neither a tool's call nor its result as it was.
pub reduce-Reduced :
    (space : ℕ → Bool) (result_chars argument_chars : ℕ) (items : List Item)
    → Reduced items (reduce space result_chars argument_chars items)
unfolding reduce roles kinds
reduce-Reduced space r a [] = record { same_roles = refl; same_kinds = refl; same_said = refl }
reduce-Reduced space r a (item ∷ items) =
    let alike = reduce_item-Alike space r a item in
    let rest = reduce-Reduced space r a items in
    record {
      same_roles = rw (alike.same_role, rest.same_roles) refl;
      same_kinds = rw (alike.same_kind, rest.same_kinds) refl;
      same_said =
          keep-Alike item (reduce_item space r a item) items (reduce space r a items) alike
            rest.same_said;
    }
