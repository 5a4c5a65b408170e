-- ===== src/Conversation/Removed.antt =====
-- `wipe` and `clear` of nontainer/conversation.py.
use nontainer.Prelude.{
  Text, Bool, true, false, List, none, if◌then◌else◌, any, lookup, is_some, starts_with, ◌≡◌,
}
use nontainer.Planes.{Kv, Ran, returned}

abbrev pub under : List Text → Text → Bool
under prefixes k = any (λ p. starts_with p k) prefixes

-- The call returned whether anything was there; the keys under the prefixes are gone, and every
-- other key holds what it held.
pub record Removed (prefixes : List Text) (r : Ran Bool) (kv after : Kv) : Type 0 where
  pub found : Bool
  pub returns : r ≡ returned found after
  pub at_key :
      (k : Text) → lookup k after.items ≡ (if under prefixes k then none else lookup k kv.items)
  pub found_some :
      (k : Text) → under prefixes k ≡ true → is_some (lookup k kv.items) ≡ true → found ≡ true
  pub found_none : found ≡ false → after ≡ kv
  pub nothing_there :
      ((k : Text) → under prefixes k ≡ true → lookup k kv.items ≡ none) → found ≡ false
