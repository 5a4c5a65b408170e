-- ===== src/AgentGit/Rewritten.antt =====
-- The writes of a checkout of nontainer/agentgit.py.
use nontainer.Prelude.{
  Text, Bool, true, false, List, Option, none, [], ◌∷◌, ◌++◌, if◌then◌else◌, ◌||◌, ◌&&◌, not, ◌≡◌,
  refl, sym, ap, ◌∙◌, lookup, erase, lookup-erase, keys, member, member-keys, member-keep,
  member-append, member-sorted_set, any-member, is_some, keep, any, Bool-cases, Option-cases, inl,
  inr, arith,
}
use nontainer.AgentGit.Trees.{Tree, in_way, put_each, differs, diff_paths}
use nontainer.AgentGit.Writes.{Untangled, Free, mixed, put_each-Wrote}
use nontainer.AgentGit.Changes.{Session}
use nontainer.AgentGit.Measured.{member-diff_paths}
use nontainer.AgentGit.Landed.{same_values}
use nontainer.AgentGit.Checkout.{Rewrite, below, ignored_in_way, rewrite, erase_each}

lookup-erase_each :
    (ps : List Text) (tree : Tree) (k : Text)
    → lookup k (erase_each ps tree) ≡ (if member k ps then none else lookup k tree)
unfolding erase_each member
lookup-erase_each [] tree k = refl
lookup-erase_each (p ∷ ps) tree k =
    ground (arith, lookup-erase_each ps (erase p tree) k, lookup-erase p k tree)

-- Whatever an ignored name covers, it covers everything below it.
unfoldable pub Covering : Session → Type 0
Covering s = (p q : Text) → s.ignored q ≡ true → below q p ≡ true → s.ignored p ≡ true

module _ (s : Session) (target working : Tree) where
  abbrev pub w : Rewrite
  w = rewrite s target working

  member-diff :
      (k : Text)
      → member k (keep (λ p. not (s.ignored p)) (diff_paths target working))
        ≡ (not (s.ignored k) && differs target working k)
  member-diff k =
      member-keep (λ p. not (s.ignored p)) k (diff_paths target working)
      ∙ ap (λ b. not (s.ignored k) && b) (member-diff_paths target working k)

  member-gone :
      (k : Text)
      → member k w.gone
        ≡ (not (is_some (lookup k target)) && (not (s.ignored k) && differs target working k))
  unfolding rewrite
  member-gone k =
      let diff = keep (λ p. not (s.ignored p)) (diff_paths target working) in
      member-sorted_set k (keep (λ p. not (is_some (lookup p target))) diff)
      ∙ (member-keep (λ p. not (is_some (lookup p target))) k diff
          ∙ ap (λ b. not (is_some (lookup k target)) && b) (member-diff k))

  pub member-changed :
      (k : Text)
      → member k w.changed
        ≡ (is_some (lookup k target) && (not (s.ignored k) && differs target working k))
  unfolding rewrite
  member-changed k =
      let diff = keep (λ p. not (s.ignored p)) (diff_paths target working) in
      member-sorted_set k (keep (λ p. is_some (lookup p target)) diff)
      ∙ (member-keep (λ p. is_some (lookup p target)) k diff
          ∙ ap (λ b. is_some (lookup k target) && b) (member-diff k))

  pub member-in_way :
      (k : Text)
      → member k w.in_way
        ≡ ((s.ignored k && any (λ p. below p k) w.changed) && is_some (lookup k working))
  unfolding rewrite ignored_in_way
  member-in_way k =
      let test : Text → Bool = λ q. s.ignored q && any (λ p. below p q) w.changed in
      member-sorted_set k (keep test (keys working))
      ∙ (member-keep test k (keys working) ∙ ap (λ b. test k && b) (member-keys k working))

  cleared : Tree
  cleared = erase_each (w.gone ++ w.in_way) working

  lookup-cleared :
      (k : Text)
      → lookup k cleared ≡ (if member k w.gone || member k w.in_way then none else lookup k working)
  unfolding cleared
  lookup-cleared k =
      lookup-erase_each (w.gone ++ w.in_way) working k
      ∙ ap (λ b. if b then none else lookup k working) (member-append k w.gone w.in_way)

  -- Every file left that the session does not ignore is one of the commit's.
  left_in_target :
      (k : Text)
      → is_some (lookup k cleared) ≡ true
      → s.ignored k ≡ false
      → is_some (lookup k target) ≡ true
  unfolding differs
  left_in_target k there seen = elim (Bool-cases (differs target working k)) [
    | inl d ↦ ground (arith, lookup-cleared k, member-gone k)
    | inr same ↦
        ap is_some (same_values (lookup k target) (lookup k working) same)
        ∙ ground (arith, lookup-cleared k)
  ]

  -- No ignored file that is left stands in the way of a write.
  ignored_apart :
      (p q : Text)
      → Covering s
      → member p w.changed ≡ true
      → is_some (lookup q cleared) ≡ true
      → s.ignored q ≡ true
      → in_way p q ≡ false
  unfolding Covering in_way
  ignored_apart p q covering m there hidden = elim (Bool-cases (below p q)) [
    | inl under ↦
        let blocking = any-member (λ x. below x q) p w.changed m under in
        absurd (ground (arith, lookup-cleared q, member-in_way q))
    | inr apart ↦ elim (Bool-cases (below q p)) [
      | inl under ↦ absurd (ground (arith, covering p q hidden under, member-changed p))
      | inr other ↦ ground arith
    ]
  ]

  rewrite-Free : Untangled target → Covering s → Free target w.changed cleared
  unfolding Free Untangled
  rewrite-Free u covering p q m at_target (inr (n, also)) = u p q at_target also
  rewrite-Free u covering p q m at_target (inl there) = elim (Bool-cases (s.ignored q)) [
    | inl hidden ↦ ignored_apart p q covering m there hidden
    | inr seen ↦ u p q at_target (left_in_target q there seen)
  ]

  -- What a path holds afterwards: an ignored one what it did, unless it was removed; any other what the
  -- commit holds.
  unfoldable pub checked_out_value : Text → Option Text
  checked_out_value k =
      if s.ignored k
      then (if member k w.in_way then none else lookup k working)
      else lookup k target

  mixed_value : (k : Text) → mixed target w.changed cleared k ≡ checked_out_value k
  unfolding mixed checked_out_value differs
  mixed_value k = elim (Bool-cases (s.ignored k)) [
    | inl hidden ↦
        let unchanged : member k w.changed ≡ false = ground (arith, member-changed k) in
        let kept : member k w.gone ≡ false = ground (arith, member-gone k) in
        rw (hidden, unchanged, lookup-cleared k, kept) refl
    | inr seen ↦ elim (Bool-cases (differs target working k)) [
      | inr same ↦
          let unchanged : member k w.changed ≡ false = ground (arith, member-changed k) in
          let kept : member k w.gone ≡ false = ground (arith, member-gone k) in
          let clear : member k w.in_way ≡ false = ground (arith, member-in_way k) in
          rw (seen, unchanged, lookup-cleared k, kept, clear)
            (sym (same_values (lookup k target) (lookup k working) same))
      | inl d ↦ elim (Option-cases (lookup k target)) [
        | inl e ↦
            let gone : member k w.gone ≡ true = ground (arith, member-gone k) in
            rw (seen, e, lookup-cleared k, gone) (ground (arith))
        | inr (v, e) ↦
            let changed : member k w.changed ≡ true = ground (arith, member-changed k) in
            rw (seen, e, changed) refl
      ]
    ]
  ]

  -- No write of a checkout is refused, and each path then holds what it should.
  pub rewrite_lem :
      Untangled target
      → Covering s
      → ((put_each target w.changed (erase_each (w.gone ++ w.in_way) working)).0 ≡ true)
        × ((k : Text)
            → lookup k (put_each target w.changed (erase_each (w.gone ++ w.in_way) working)).1
              ≡ checked_out_value k)
  unfolding cleared
  rewrite_lem u covering =
      let wrote = put_each-Wrote target w.changed cleared (rewrite-Free u covering) in
      (wrote.written, λ k. wrote.values k ∙ mixed_value k)
