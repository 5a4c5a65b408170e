-- ===== src/AgentGit/Taken.antt =====
-- The tree that a commit of nontainer/agentgit.py is made from.
use nontainer.Prelude.{
  Text, Bool, true, false, Option, if◌then◌else◌, ◌≡◌, ◌⊎◌, refl, sym, ap, ◌∙◌, lookup, member,
  is_some, Option-cases, Bool-cases, inl, inr, arith,
}
use nontainer.AgentGit.Trees.{Tree, in_way, put_each, remove_each}
use nontainer.AgentGit.Writes.{Untangled, Free, mixed, Wrote, put_each-Wrote, lookup-remove_each}
use nontainer.AgentGit.Commit.{Plan, written}
use nontainer.AgentGit.Planned.{Planned, in_way_comm}

-- A file that has not been changed is one of the baseline, or stands in the way of none of them.
unfoldable pub Clear : (Text → Bool) → Tree → Tree → Type 0
Clear modified working base =
    (k j : Text)
    → is_some (lookup k base) ≡ true
    → is_some (lookup j working) ≡ true
    → modified j ≡ false
    → (is_some (lookup j base) ≡ true) ⊎ (in_way k j ≡ false)

-- What is written holds the paths taken as the tree has them, and the ones put back as the base has.
unfoldable pub taken_tree : Plan → Tree → Text → Option Text
taken_tree p working k =
    if member k p.files
    then lookup k working
    else if member k p.reverted
    then lookup k p.base
    else lookup k working

module _ (p : Plan) (working : Tree) (modified : Text → Bool) (h : Planned modified working p)
    (u : Untangled working) (v : Untangled p.base) (clear : Clear modified working p.base) where
  removed : Tree
  removed = remove_each p.base p.reverted working

  back : Bool × Tree
  back = put_each p.base p.reverted removed

  still_there :
      (j : Text)
      → is_some (lookup j removed) ≡ true
      → (is_some (lookup j working) ≡ true)
        × ((is_some (lookup j p.base) ≡ true) ⊎ (member j p.reverted ≡ false))
  unfolding removed
  still_there j there = elim (Bool-cases (is_some (lookup j p.base))) [
    | inl e ↦ (ground (arith, lookup-remove_each p.base p.reverted working j), inl e)
    | inr e ↦ (
      ground (arith, lookup-remove_each p.base p.reverted working j),
      inr (ground (arith, lookup-remove_each p.base p.reverted working j)),
    )
  ]

  kept_apart :
      (k j : Text)
      → member k p.reverted ≡ true
      → is_some (lookup k p.base) ≡ true
      → is_some (lookup j working) ≡ true
      → member j p.reverted ≡ false
      → in_way k j ≡ false
  unfolding Untangled Clear
  kept_apart k j m at_base there left = elim (Bool-cases (member j p.files)) [
    | inl taken ↦ h.apart j k taken there m at_base
    | inr other ↦ elim (clear k j at_base there (ground (arith, h.reverted j))) [
      | inl j_at_base ↦ v k j at_base j_at_base
      | inr apart ↦ apart
    ]
  ]

  back-Free : Free p.base p.reverted removed
  unfolding Free Untangled
  back-Free k j m at_base (inr (n, j_at_base)) = v k j at_base j_at_base
  back-Free k j m at_base (inl there) =
      let (w, how) = still_there j there in
      elim how [
        | inl j_at_base ↦ v k j at_base j_at_base
        | inr left ↦ kept_apart k j m at_base w left
      ]

  back-Wrote : Wrote p.base p.reverted removed back
  unfolding back
  back-Wrote = put_each-Wrote p.base p.reverted removed back-Free

  lookup-back_left : (j : Text) → member j p.reverted ≡ true → lookup j back.1 ≡ lookup j p.base
  unfolding mixed removed
  lookup-back_left j m = back-Wrote.values j ∙ elim (Option-cases (lookup j p.base)) [
    | inl e ↦ rw (m, e, lookup-remove_each p.base p.reverted working j, m, e) refl
    | inr (a, e) ↦ rw (m, e) refl
  ]

  lookup-back_other : (j : Text) → member j p.reverted ≡ false → lookup j back.1 ≡ lookup j working
  unfolding mixed removed
  lookup-back_other j m =
      back-Wrote.values j ∙ rw (m, lookup-remove_each p.base p.reverted working j, m) refl

  taken-Free : Free working p.files back.1
  unfolding Free Untangled
  taken-Free k j m there (inr (n, w)) = u k j there w
  taken-Free k j m there (inl after) = elim (Bool-cases (member j p.reverted)) [
    | inl left ↦
        in_way_comm k j
        ∙ h.apart k j m there left (sym (ap is_some (lookup-back_left j left)) ∙ after)
    | inr other ↦ u k j there (sym (ap is_some (lookup-back_other j other)) ∙ after)
  ]

  not_both : (k : Text) → member k p.files ≡ true → member k p.reverted ≡ false
  not_both k m = ground (arith, h.reverted k)

  lookup-written : (k : Text) → mixed working p.files back.1 k ≡ taken_tree p working k
  unfolding mixed taken_tree
  lookup-written k = elim (Bool-cases (member k p.files)) [
    | inl m ↦ elim (Option-cases (lookup k working)) [
      | inl e ↦ rw (m, e) (lookup-back_other k (not_both k m) ∙ e)
      | inr (a, e) ↦ rw (m, e) refl
    ]
    | inr m ↦ elim (Bool-cases (member k p.reverted)) [
      | inl left ↦ rw (m, left) (lookup-back_left k left)
      | inr other ↦ rw (m, other) (lookup-back_other k other)
    ]
  ]

  -- No write of a commit is refused, and each path then holds what the plan says.
  pub written_lem :
      ((written p working).0 ≡ true)
      × ((k : Text) → lookup k (written p working).1 ≡ taken_tree p working k)
  unfolding written back removed
  written_lem =
      let wrote = put_each-Wrote working p.files back.1 taken-Free in
      rw (back-Wrote.written) (wrote.written, λ k. wrote.values k ∙ lookup-written k)
