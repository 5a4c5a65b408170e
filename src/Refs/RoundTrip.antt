-- ===== src/Refs/RoundTrip.antt =====
-- A `Ref` of nontainer/store/refs.py printed and parsed.
use nontainer.Prelude.{
  Text, ℕ, true, false, Option, none, some, [], ◌∷◌, ◌++◌, ◌≡◌, refl, ◌==◌, is_empty, any-append,
  starts_with-append, drop-length-append, contains_code, arith, ap, ◌∙◌,
}
use nontainer.Refs.{
  Ref, partition, partition_last, ref_of, parse, show_ref, tag, tag_ref_prefix, at_tag,
}

same_code : (c : ℕ) → (c == c) ≡ true
same_code c = ground arith

absent_first :
    (c d : ℕ) (s : Text)
    → contains_code c (d ∷ s) ≡ false
    → ((d == c) ≡ false) × (contains_code c s ≡ false)
absent_first c d s h = (ground arith, ground arith)

partition-append :
    (c : ℕ) (s t : Text) → contains_code c s ≡ false → partition c (s ++ (c ∷ t)) ≡ (s, true, t)
unfolding partition
partition-append c [] t h = rw (same_code c) refl
partition-append c (d ∷ s) t h =
    let (other, rest) = absent_first c d s h in rw (other, partition-append c s t rest) refl

partition_absent : (c : ℕ) (s : Text) → contains_code c s ≡ false → partition c s ≡ (s, false, [])
unfolding partition
partition_absent c [] h = refl
partition_absent c (d ∷ s) h =
    let (other, rest) = absent_first c d s h in rw (other, partition_absent c s rest) refl

partition_last_absent : (c : ℕ) (s : Text) → contains_code c s ≡ false → partition_last c s ≡ none
unfolding partition_last
partition_last_absent c [] h = refl
partition_last_absent c (d ∷ s) h =
    let (other, rest) = absent_first c d s h in rw (partition_last_absent c s rest, other) refl

partition_last-append :
    (c : ℕ) (s t : Text) → contains_code c t ≡ false → partition_last c (s ++ (c ∷ t)) ≡ some (s, t)
unfolding partition_last
partition_last-append c [] t h = rw (partition_last_absent c t h) (rw (same_code c) refl)
partition_last-append c (d ∷ s) t h = rw (partition_last-append c s t h) refl

-- What a ref must be for its spelling to be read back: neither name is empty, the commit has no
-- `@`, and neither has a `:`.
pub record Spellable (ref : Ref) : Type 0 where
  pub some_session : is_empty ref.session ≡ false
  pub some_commit : is_empty ref.commit ≡ false
  pub no_at : contains_code 64 ref.commit ≡ false
  pub no_colon : contains_code 58 (ref.session ++ (64 ∷ ref.commit)) ≡ false

-- The path as it is read back: an empty one is none.
pub path_read : Option Text → Option Text
path_read none = none
path_read (some []) = none
path_read (some (c ∷ path)) = some (c ∷ path)

at_inside : (s t : Text) → contains_code 64 (s ++ (64 ∷ t)) ≡ true
at_inside [] t = refl
at_inside (c ∷ s) t = ground (arith, at_inside s t)

module _ (ref : Ref) (h : Spellable ref) where
  based :
      (path : Option Text)
      → ref_of (partition_last 64 (ref.session ++ (64 ∷ ref.commit))) path
        ≡ some (record ref { path = path })
  based path =
      rw (partition_last-append 64 ref.session ref.commit h.no_at, h.some_session, h.some_commit)
        refl

  at_there : (u : Text) → contains_code 64 ((ref.session ++ (64 ∷ ref.commit)) ++ u) ≡ true
  at_there u =
      any-append (λ d. 64 == d) (ref.session ++ (64 ∷ ref.commit)) u
      ∙ rw (at_inside ref.session ref.commit) refl

  parse_bare : parse (ref.session ++ (64 ∷ ref.commit)) ≡ some (record ref { path = none })
  unfolding parse
  parse_bare =
      rw
        (
          partition_absent 58 (ref.session ++ (64 ∷ ref.commit)) h.no_colon,
          at_inside ref.session ref.commit,
        )
        (based none)

  parse_with_path :
      (c : ℕ) (path : Text)
      → parse ((ref.session ++ (64 ∷ ref.commit)) ++ (58 ∷ c ∷ path))
        ≡ some (record ref { path = some (c ∷ path) })
  unfolding parse
  parse_with_path c path =
      rw
        (
          partition-append 58 (ref.session ++ (64 ∷ ref.commit)) (c ∷ path) h.no_colon,
          at_there (58 ∷ c ∷ path),
        )
        (based (some (c ∷ path)))

  parse_any :
      (path : Option Text)
      → parse (show_ref (record ref { path = path })) ≡ some (record ref { path = path_read path })
  unfolding show_ref path_read
  parse_any none = parse_bare
  parse_any (some []) = parse_bare
  parse_any (some (c ∷ path)) = parse_with_path c path

-- A ref whose session and commit are not empty, with no `@` in the commit and no `:` in either, is
-- read back from its spelling, but for an empty path, which is read as none.
pub parse-show_ref :
    (ref : Ref)
    → Spellable ref
    → parse (show_ref ref) ≡ some (record ref { path = path_read ref.path })
parse-show_ref ref h = parse_any ref h ref.path

-- The ref to a tag names that tag, at that commit.
pub tag-at_tag : (name commit : Text) → tag (at_tag name commit) ≡ some name
unfolding tag at_tag
tag-at_tag name commit =
    rw (starts_with-append tag_ref_prefix name) (ap some (drop-length-append tag_ref_prefix name))
