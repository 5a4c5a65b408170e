-- ===== src/Values.antt =====
-- The Python values that the session's key-value plane holds (nontainer/planes.py,
-- nontainer/conversation.py, nontainer/agentgit.py): what JSON has, and any other value, told
-- apart by a number, which is true, no mapping and not iterable.
use nontainer.Prelude.{
  Text, ℕ, Bool, true, false, List, Option, none, some, text_eq, if◌then◌else◌, [], ◌∷◌, is_empty,
  not, ◌==◌, ◌≡◌,
}

mutual
  pub data Value : Type 0 where
    null : Value
    flag : Bool → Value
    number : ℕ → Value
    text : Text → Value
    list : Items → Value
    mapping : Fields → Value
    other : ℕ → Value

  pub data Items : Type 0 where
    nil : Items
    cons : Value → Items → Items

  pub data Fields : Type 0 where
    end : Fields
    field : Text → Value → Fields → Fields

-- `d.get(k)`, which is `None` for a key that is not there.
abbrev pub get_field : Text → Fields → Value
get_field k end = null
get_field k (field j v d) = if text_eq j k then v else get_field k d

-- `{k: v for k, v in d.items() if k != key}`
abbrev pub without_field : Text → Fields → Fields
without_field key end = end
without_field key (field j v d) =
    let rest = without_field key d in if text_eq j key then rest else field j v rest

-- `bool(v)`
abbrev pub truthy : Value → Bool
truthy null = false
truthy (flag b) = b
truthy (number n) = not (n == 0)
truthy (text t) = not (is_empty t)
truthy (list nil) = false
truthy (list (cons v vs)) = true
truthy (mapping end) = false
truthy (mapping (field k v d)) = true
truthy (other n) = true

-- `v or default`
abbrev pub or_else : Value → Value → Value
or_else v default = if truthy v then v else default

abbrev pub from_items : Items → List Value
from_items nil = []
from_items (cons v vs) = v ∷ from_items vs

abbrev pub texts : List Text → Items
texts [] = nil
texts (t ∷ ts) = cons (text t) (texts ts)

abbrev pub characters : Text → List Value
characters [] = []
characters (c ∷ t) = text (c ∷ []) ∷ characters t

abbrev pub field_names : Fields → List Value
field_names end = []
field_names (field k v d) = text k ∷ field_names d

-- `tuple(v)`, and `none` where Python raises, since the value is not iterable.
abbrev pub iterate : Value → Option (List Value)
iterate (list vs) = some (from_items vs)
iterate (text t) = some (characters t)
iterate (mapping d) = some (field_names d)
iterate _ = none

abbrev pub is_null : Value → Bool
is_null null = true
is_null _ = false

-- `v == t` for a string `t`
abbrev pub is_text : Text → Value → Bool
is_text t (text s) = text_eq s t
is_text t _ = false

-- `None` or a string
abbrev pub optional : Option Text → Value
optional none = null
optional (some t) = text t

-- What is known of `str` on values that are no strings is nothing.
pub record IsStr (str : Value → Text) : Type 0 where
  pub of_text : (t : Text) → str (text t) ≡ t
