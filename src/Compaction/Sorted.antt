-- ===== src/Compaction/Sorted.antt =====
-- The keys of the folds of nontainer/compaction.py, sorted: a new one comes after the others.
use nontainer.Prelude.{
  text_ltb, sort_in, sort, Text, ℕ, zero, suc, ◌<◌, ◌≡◌, refl, Bool, true, false, List, [], ◌∷◌,
  ◌++◌, All, arith, length, length-append, Bool-cases, inl, inr, keep, member, Dict, insert, keys,
}
use nontainer.Values.{Value}
use nontainer.Compaction.Folds.{fold_key}
use nontainer.Compaction.Padded.{fold_key_lt, text_ltb_distinct}

-- The keys of the folds 1 to n, in the order in which they were recorded.
unfoldable pub numbered : ℕ → List Text
numbered zero = []
numbered (suc n) = numbered n ++ fold_key (suc n) ∷ []

-- A key that comes after all of the list's.
unfoldable pub After : Text → List Text → Type 0
After k = All (λ j. text_ltb j k ≡ true)

pub After-append : (k : Text) (xs ys : List Text) → After k xs → After k ys → After k (xs ++ ys)
unfolding After
After-append k [] ys h g = g
After-append k (x ∷ xs) ys (a, h) g = (a, After-append k xs ys h g)

pub length-numbered : (n : ℕ) → length (numbered n) ≡ n
unfolding numbered
length-numbered zero = refl
length-numbered (suc n) =
    omega (arith, length-append (numbered n) (fold_key (suc n) ∷ []), length-numbered n)

pub numbered-After : (n m : ℕ) → n < m → m < 1000000 → After (fold_key m) (numbered n)
unfolding numbered After
numbered-After zero m h b = tt
numbered-After (suc n) m h b =
    After-append (fold_key m) (numbered n) (fold_key (suc n) ∷ [])
      (numbered-After n m (omega arith) b) (fold_key_lt (suc n) m h b, tt)

sort_in-After :
    (k j : Text) (js : List Text) → text_ltb j k ≡ true → After k js → After k (sort_in j js)
unfolding sort_in After
sort_in-After k j [] h g = (h, tt)
sort_in-After k j (i ∷ js) h (a, g) = elim (Bool-cases (text_ltb j i)) [
  | inl e ↦ rw (e) (h, (a, g))
  | inr e ↦ rw (e) (a, sort_in-After k j js h g)
]

pub sort-After : (k : Text) (ks : List Text) → After k ks → After k (sort ks)
unfolding sort After
sort-After k [] h = tt
sort-After k (j ∷ ks) (a, h) = sort_in-After k j (sort ks) a (sort-After k ks h)

sort_in-append_last :
    (k j : Text) (js : List Text)
    → text_ltb j k ≡ true
    → sort_in j (js ++ k ∷ []) ≡ sort_in j js ++ k ∷ []
unfolding sort_in
sort_in-append_last k j [] h = rw (h) refl
sort_in-append_last k j (i ∷ js) h = elim (Bool-cases (text_ltb j i)) [
  | inl e ↦ rw (e) refl
  | inr e ↦ rw (e, sort_in-append_last k j js h) refl
]

-- A key after all the others is sorted to the end.
pub sort-append_last :
    (k : Text) (ks : List Text) → After k ks → sort (ks ++ k ∷ []) ≡ sort ks ++ k ∷ []
unfolding sort sort_in After
sort-append_last k [] h = refl
sort-append_last k (j ∷ ks) (a, h) =
    rw (sort-append_last k ks h) (sort_in-append_last k j (sort ks) a)

pub member-After : (k : Text) (ks : List Text) → After k ks → member k ks ≡ false
unfolding member After
member-After k [] h = refl
member-After k (j ∷ ks) (a, h) = rw ((text_ltb_distinct j k a).0, member-After k ks h) refl

pub keep-append : (p : Text → Bool) (xs ys : List Text) → keep p (xs ++ ys) ≡ keep p xs ++ keep p ys
keep-append p [] ys = refl
keep-append p (x ∷ xs) ys = ground (arith, keep-append p xs ys)

pub keys-insert_new :
    (k : Text) (v : Value) (d : Dict Value)
    → member k (keys d) ≡ false
    → keys (insert k v d) ≡ keys d ++ k ∷ []
unfolding keys insert member
keys-insert_new k v [] h = refl
keys-insert_new k v ((j, w) ∷ d) h = ground (arith, keys-insert_new k v d)
