-- ===== src/Compaction/Items.antt =====
-- The texts of nontainer/compaction.py's reduced path: `Item`, `transcript`, `reduce`.
use nontainer.Prelude.{
  strip_right, Text, concat, ℕ, ◌+◌, ◌-◌, ◌/◌, ◌%◌, Bool, List, [], ◌∷◌, ◌++◌, length, take,
  if◌then◌else◌, ltb, ◌==◌, ◌&&◌, not,
}
use nontainer.Inbox.Decimal.{print}

-- `kind` of an item: a tool's call, its result, or anything else.
pub data ItemKind : Type 0 where
  tool_call tool_result said : ItemKind

pub record Item : Type 0 where
  pub role : Text
  pub text : Text
  pub kind : ItemKind

-- `math.ceil(len(text) / 4) if text else 0`
unfoldable pub estimate_tokens : Text → ℕ
estimate_tokens text = (length text + 3) / 4

abbrev pub label_of : Item → Text
label_of item = elim item.kind [
  | tool_call ↦ concat "tool call"
  | tool_result ↦ concat "tool result"
  | said ↦ item.role
]

abbrev pub line_of : Item → Text
line_of item = concat "[" ++ (label_of item ++ (93 ∷ 10 ∷ item.text))

unfoldable pub transcript : List Item → Text
transcript [] = []
transcript (item ∷ []) = line_of item
transcript (item ∷ next ∷ items) = line_of item ++ (10 ∷ 10 ∷ transcript (next ∷ items))

-- The digits with a comma before every third from the end: `f"{n:}"`.
abbrev pub group_digits : Text → Text
group_digits [] = []
group_digits (c ∷ s) =
    let rest = group_digits s in
    if length s % 3 == 0 && not (length s == 0) then c ∷ 44 ∷ rest else c ∷ rest

unfoldable pub print_grouped : ℕ → Text
print_grouped n = group_digits (print n)

module _ (space : ℕ → Bool) where
  -- `f"[{len(item.text):} characters; it began:]\n{head}\n[…]"`
  abbrev placeholder : ℕ → Text → Text
  placeholder result_chars text =
      concat "["
      ++ (print_grouped (length text)
          ++ (concat " characters; it began:]"
              ++ (10 ∷ (strip_right space (take result_chars text) ++ (10 ∷ concat "[…]")))))

  -- `item.text[:argument_chars] + f"\n[… {cut:} more characters]"`
  abbrev shortened : ℕ → Text → Text
  shortened argument_chars text =
      take argument_chars text
      ++ (10
          ∷ (concat "[… "
              ++ (print_grouped (length text - argument_chars) ++ concat " more characters]")))

  unfoldable pub reduce_item : ℕ → ℕ → Item → Item
  reduce_item result_chars argument_chars item = elim item.kind [
    | said ↦ item
    | tool_result ↦
        if ltb result_chars (length item.text)
        then record item { text = placeholder result_chars item.text }
        else item
    | tool_call ↦
        if ltb argument_chars (length item.text)
        then record item { text = shortened argument_chars item.text }
        else item
  ]

  unfoldable pub reduce : ℕ → ℕ → List Item → List Item
  reduce result_chars argument_chars [] = []
  reduce result_chars argument_chars (item ∷ items) =
      reduce_item result_chars argument_chars item ∷ reduce result_chars argument_chars items
