-- ===== src/Conversation/IndexData.antt =====
-- The index of nontainer/conversation.py: what core knows about a stored conversation, and its
-- stored form. `str` is Python's, of which only its identity on strings is known.
use nontainer.Prelude.{
  Text, concat, ℕ, Bool, true, false, List, Option, none, some, [], ◌∷◌, map, ◌≡◌, refl, text_eq,
}
use nontainer.Values.{
  Value, number, text, list, mapping, Fields, end, field, Items, get_field, or_else, texts, iterate,
  from_items, IsStr,
}

pub record Index : Type 0 where
  pub harness : Text
  pub session : Value
  pub runs : List Text
  pub forked_from : Value
  pub legacy : Bool

abbrev format : ℕ
format = 1

unfoldable pub to_dict : Index → Fields
to_dict index = field (concat "format") (number format) (
    field (concat "harness") (text index.harness) (
      field (concat "session") index.session (
        field (concat "runs") (list (texts index.runs))
          (field (concat "forked_from") index.forked_from end))))

infixl 5 ◌>>=◌
abbrev ◌>>=◌ {ℓ κ} : {A : Type ℓ} {B : Type κ} → Option A → (A → Option B) → Option B
none >>= f = none
some a >>= f = f a

module _ (str : Value → Text) where
  -- `none` where Python raises: the runs are a value that cannot be iterated.
  unfoldable pub from_dict : Fields → Option Index
  from_dict d = do
    runs ← iterate (or_else (get_field (concat "runs") d) (list Items.nil))
    some (record {
      harness = str (or_else (get_field (concat "harness") d) (text []));
      session = get_field (concat "session") d;
      runs = map str runs;
      forked_from = get_field (concat "forked_from") d;
      legacy = false;
    })

  -- `(record.get("session_data") or {}).get("forked_from_session_id")`
  abbrev lineage : Value → Option Value
  lineage (mapping d) = some (get_field (concat "forked_from_session_id") d)
  lineage _ = none

  unfoldable pub from_legacy : Fields → Option Index
  from_legacy d = do
    forked_from ← lineage (or_else (get_field (concat "session_data") d) (mapping end))
    runs ← iterate (or_else (get_field (concat "run_ids") d) (list Items.nil))
    some (record {
      harness = concat "agno";
      session = get_field (concat "session_id") d;
      runs = map str runs;
      forked_from = forked_from;
      legacy = true;
    })

  str-from_items : IsStr str → (ts : List Text) → map str (from_items (texts ts)) ≡ ts
  str-from_items h [] = refl
  str-from_items h (t ∷ ts) = rw (h.of_text t, str-from_items h ts)

  iterate-or_else :
      (ts : List Text)
      → iterate (or_else (list (texts ts)) (list Items.nil)) ≡ some (from_items (texts ts))
  iterate-or_else [] = refl
  iterate-or_else (t ∷ ts) = refl

  or_else-text : IsStr str → (t : Text) → str (or_else (text t) (text [])) ≡ t
  or_else-text h [] = h.of_text []
  or_else-text h (c ∷ t) = h.of_text (c ∷ t)

  -- Every index, stored and read back, is itself, but for the mark of the legacy plane, which is
  -- not stored.
  pub from_dict-to_dict :
      IsStr str
      → (index : Index) → from_dict (to_dict index) ≡ some (record index { legacy = false })
  unfolding from_dict to_dict text_eq
  from_dict-to_dict h index = simp (iterate-or_else, str-from_items h, or_else-text h)
