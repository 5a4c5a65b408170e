-- ===== src/Planes/Writes.antt =====
-- Writes to a store that may fail (nontainer/planes.py, nontainer/conversation.py).
use nontainer.Prelude.{
  Text, Bool, true, false, List, [], ◌∷◌, ◌≡◌, refl, ◌⊎◌, inl, inr, Dict, insert, erase, lookup,
  some,
}
use nontainer.Values.{Value}
use nontainer.Planes.{Kv, get, write_faulty, set_item, delete_item}

-- No write fails.
abbrev pub Clear : List Bool → Type 0
Clear [] = Unit
Clear (fault ∷ faults) = (fault ≡ false) × Clear faults

-- At most one write fails.
abbrev pub Once : List Bool → Type 0
Once [] = Unit
Once (false ∷ faults) = Once faults
Once (true ∷ faults) = Clear faults

-- The write was made.
pub record Made (f : Dict Value → Dict Value) (kv : Kv) (r : Bool × Kv) : Type 0 where
  pub written : r.0 ≡ true
  pub items : r.1.items ≡ f kv.items
  pub batched : r.1.batched ≡ kv.batched

module _ (f : Dict Value → Dict Value) (kv : Kv) where
  write_faulty-Clear :
      (faults : List Bool)
      → Clear faults
      → Made f kv (write_faulty f kv faults) × Clear (write_faulty f kv faults).1.faults
  write_faulty-Clear [] h = (record { written = refl; items = refl; batched = refl }, tt)
  write_faulty-Clear (false ∷ faults) h =
      (record { written = refl; items = refl; batched = refl }, h.1)
  write_faulty-Clear (true ∷ faults) h = absurd (cc (h.0))

  write_faulty-Once :
      (faults : List Bool)
      → Once faults
      → (Made f kv (write_faulty f kv faults) × Once (write_faulty f kv faults).1.faults)
        ⊎ (((write_faulty f kv faults).0 ≡ false)
            × ((write_faulty f kv faults).1.items ≡ kv.items)
            × Clear (write_faulty f kv faults).1.faults)
  write_faulty-Once [] h = inl (record { written = refl; items = refl; batched = refl }, tt)
  write_faulty-Once (false ∷ faults) h =
      inl (record { written = refl; items = refl; batched = refl }, h)
  write_faulty-Once (true ∷ faults) h = inr (refl, refl, h)

module _ (key : Text) (value : Value) (kv : Kv) where
  pub set_item-Clear :
      Clear kv.faults
      → Made (insert key value) kv (set_item key value kv) × Clear (set_item key value kv).1.faults
  unfolding set_item
  set_item-Clear h = write_faulty-Clear (insert key value) kv kv.faults h

  pub set_item-Once :
      Once kv.faults
      → (Made (insert key value) kv (set_item key value kv) × Once (set_item key value kv).1.faults)
        ⊎ (((set_item key value kv).0 ≡ false)
            × ((set_item key value kv).1.items ≡ kv.items)
            × Clear (set_item key value kv).1.faults)
  unfolding set_item
  set_item-Once h = write_faulty-Once (insert key value) kv kv.faults h

module _ (key : Text) (kv : Kv) where
  pub delete_item-Clear :
      Clear kv.faults
      → Made (erase key) kv (delete_item key kv) × Clear (delete_item key kv).1.faults
  unfolding delete_item
  delete_item-Clear h = write_faulty-Clear (erase key) kv kv.faults h

  pub delete_item-Once :
      Once kv.faults
      → (Made (erase key) kv (delete_item key kv) × Once (delete_item key kv).1.faults)
        ⊎ (((delete_item key kv).0 ≡ false)
            × ((delete_item key kv).1.items ≡ kv.items)
            × Clear (delete_item key kv).1.faults)
  unfolding delete_item
  delete_item-Once h = write_faulty-Once (erase key) kv kv.faults h

pub get_found :
    (kv : Kv) (key : Text) (value : Value) → lookup key kv.items ≡ some value → get kv key ≡ value
unfolding get
get_found kv key value h = rw (h, get)
