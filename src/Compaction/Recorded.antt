-- ===== src/Compaction/Recorded.antt =====
-- What `record` of nontainer/compaction.py adds to the folds of a workspace.
use nontainer.Prelude.{
  sort, Text, ℕ, suc, ◌<◌, ◌≡◌, refl, sym, ◌∙◌, ap, Bool, true, false, List, Option, none, some, [],
  ◌∷◌, ◌++◌, arith, text_eq, text_eq_refl, keep, member, member-keep, starts_with,
  starts_with-append, lookup, insert, keys, lookup-insert, any, append_assoc,
}
use nontainer.Values.{Value, mapping}
use nontainer.Planes.{Kv, returned, get, set_item, keys_under}
use nontainer.Planes.Writes.{Clear, set_item-Clear, get_found}
use nontainer.Compaction.Folds.{
  Fold, to_dict, from_dict, fold_keys, fold_key, fold_prefix, fold_at, with_first, folds_at, folds,
  record_fold, print_six,
}
use nontainer.Compaction.Sorted.{
  numbered, After, length-numbered, numbered-After, sort-After, sort-append_last, member-After,
  keep-append, keys-insert_new,
}
use nontainer.Compaction.Padded.{text_ltb_distinct}

-- A fold stored and read back is itself.
pub from_dict-to_dict : (now : Value) (f : Fold) → from_dict now (to_dict f) ≡ some f
unfolding from_dict to_dict text_eq
from_dict-to_dict now f = refl

-- Every fold of the store was recorded there by `record`.
unfoldable pub Numbered : ℕ → Kv → Type 0
Numbered n kv = fold_keys kv ≡ numbered n

is_fold_key : Text → Bool
is_fold_key k = any (λ p. starts_with p k) (fold_prefix ∷ [])

fold_key_kept : (n : ℕ) → is_fold_key (fold_key n) ≡ true
unfolding is_fold_key fold_key
fold_key_kept n = rw (starts_with-append fold_prefix (print_six n)) refl

-- A key with a number that no fold has is not there.
new_key :
    (n : ℕ) (kv : Kv)
    → Numbered n kv
    → n < 999999
    → member (fold_key (suc n)) (keys kv.items) ≡ false
unfolding fold_keys Numbered keys_under is_fold_key
new_key n kv h b =
    let kept = member-keep is_fold_key (fold_key (suc n)) (keys kv.items) in
    let none_there =
      member-After (fold_key (suc n)) (numbered n)
        (numbered-After n (suc n) (omega arith) (omega arith)) in
    let lost : member (fold_key (suc n)) (keep is_fold_key (keys kv.items)) ≡ false =
      ap (member (fold_key (suc n))) h ∙ none_there in
    ground (arith, fold_key_kept (suc n))

Numbered-insert :
    (n : ℕ) (v : Value) (kv kv' : Kv)
    → Numbered n kv
    → n < 999999
    → kv'.items ≡ insert (fold_key (suc n)) v kv.items
    → Numbered (suc n) kv'
unfolding fold_keys Numbered keys_under is_fold_key numbered
Numbered-insert n v kv kv' h b e =
    rw
      (
        e,
        keys-insert_new (fold_key (suc n)) v kv.items (new_key n kv h b),
        keep-append is_fold_key (keys kv.items) (fold_key (suc n) ∷ []),
        h,
        fold_key_kept (suc n),
      )
      refl

get-insert_other :
    (k j : Text) (v : Value) (kv kv' : Kv)
    → kv'.items ≡ insert k v kv.items
    → text_eq k j ≡ false
    → get kv' j ≡ get kv j
unfolding get
get-insert_other k j v kv kv' e h =
    let same : lookup j kv'.items ≡ lookup j kv.items =
      ap (lookup j) e ∙ rw (lookup-insert k j v kv.items, h) refl in
    rw (same, get)

module _ (clock : Text → Value) where
  with_first_nil : (o : Option (List Fold)) → with_first clock (some []) o ≡ o
  with_first_nil none = refl
  with_first_nil (some fs) = refl

  with_first_assoc :
      (a b c : Option (List Fold))
      → with_first clock a (with_first clock b c) ≡ with_first clock (with_first clock a b) c
  with_first_assoc none b c = refl
  with_first_assoc (some a) none c = refl
  with_first_assoc (some a) (some b) none = refl
  with_first_assoc (some a) (some b) (some c) = ap some (sym (append_assoc a b c))

  folds_at-append :
      (kv : Kv) (xs ys : List Text)
      → folds_at clock kv (xs ++ ys)
        ≡ with_first clock (folds_at clock kv xs) (folds_at clock kv ys)
  unfolding folds_at
  folds_at-append kv [] ys = sym (with_first_nil (folds_at clock kv ys))
  folds_at-append kv (x ∷ xs) ys =
      rw (folds_at-append kv xs ys) (
        with_first_assoc (fold_at clock x (get kv x)) (folds_at clock kv xs) (folds_at clock kv ys))

  folds_at-insert :
      (k : Text) (v : Value) (kv kv' : Kv) (ks : List Text)
      → kv'.items ≡ insert k v kv.items
      → After k ks
      → folds_at clock kv' ks ≡ folds_at clock kv ks
  unfolding folds_at After
  folds_at-insert k v kv kv' [] e h = refl
  folds_at-insert k v kv kv' (j ∷ ks) e (a, h) =
      rw
        (
          get-insert_other k j v kv kv' e (text_ltb_distinct j k a).1,
          folds_at-insert k v kv kv' ks e h,
        )
        refl

  one_fold :
      (key : Text) (fold : Fold) (kv : Kv)
      → get kv key ≡ mapping (to_dict fold)
      → folds_at clock kv (key ∷ []) ≡ some (fold ∷ [])
  unfolding folds_at from_dict to_dict text_eq
  one_fold key fold kv e = rw (e) refl

  -- A new fold is the last of the folds.
  folds-insert :
      (n : ℕ) (fold : Fold) (kv kv' : Kv)
      → Numbered n kv
      → n < 999999
      → kv'.items ≡ insert (fold_key (suc n)) (mapping (to_dict fold)) kv.items
      → folds clock kv' ≡ with_first clock (folds clock kv) (some (fold ∷ []))
  unfolding folds Numbered numbered
  folds-insert n fold kv kv' h b e =
      let after = numbered-After n (suc n) (omega arith) (omega arith) in
      let v = mapping (to_dict fold) in
      let there : lookup (fold_key (suc n)) kv'.items ≡ some v =
        ap (lookup (fold_key (suc n))) e
        ∙ rw
            (
              lookup-insert (fold_key (suc n)) (fold_key (suc n)) v kv.items,
              text_eq_refl (fold_key (suc n)),
            )
            refl in
      let sorted_after = sort-After (fold_key (suc n)) (numbered n) after in
      rw
        (
          Numbered-insert n v kv kv' h b e,
          h,
          sort-append_last (fold_key (suc n)) (numbered n) after,
          folds_at-append kv' (sort (numbered n)) (fold_key (suc n) ∷ []),
          folds_at-insert (fold_key (suc n)) v kv kv' (sort (numbered n)) e sorted_after,
          one_fold (fold_key (suc n)) fold kv' (get_found kv' (fold_key (suc n)) v there),
        )
        refl

-- What `record` leaves: the key that it took was free, the fold is the last of the folds, no other
-- key changes, and the folds are numbered as before.
pub record Added (clock : Text → Value) (n : ℕ) (fold : Fold) (kv kv' : Kv) : Type 0 where
  pub fresh : member (fold_key (suc n)) (keys kv.items) ≡ false
  pub last : folds clock kv' ≡ with_first clock (folds clock kv) (some (fold ∷ []))
  pub others : (key : Text) → text_eq (fold_key (suc n)) key ≡ false → get kv' key ≡ get kv key
  pub numbers : Numbered (suc n) kv'

-- On a store whose folds were all recorded there, less than 999,999 of them, where no write fails,
-- `record` returns the next number's key, which was free; the new fold is the last of the folds,
-- no other key changes, and the store's folds were again all recorded.
pub record_fold-Added :
    (clock : Text → Value) (n : ℕ) (fold : Fold) (kv : Kv)
    → Numbered n kv
    → n < 999999
    → Clear kv.faults
    → (kv' : Kv) × (record_fold false fold kv ≡ returned (fold_key (suc n)) kv')
      × Added clock n fold kv kv'
unfolding record_fold Numbered
record_fold-Added clock n fold kv h b c =
    let v = mapping (to_dict fold) in
    let (made, more) = set_item-Clear (fold_key (suc n)) v kv c in
    let kv' = (set_item (fold_key (suc n)) v kv).1 in
    (
      kv',
      rw (h, length-numbered n, made.written) refl,
      record {
        fresh = new_key n kv h b;
        last = folds-insert clock n fold kv kv' h b made.items;
        others = λ key d. get-insert_other (fold_key (suc n)) key v kv kv' made.items d;
        numbers = Numbered-insert n v kv kv' h b made.items;
      },
    )
