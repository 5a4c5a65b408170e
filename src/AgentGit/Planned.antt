-- ===== src/AgentGit/Planned.antt =====
-- What a commit of nontainer/agentgit.py takes and puts back, and that no file of one stands in the way
-- of a file of the other.
use nontainer.Prelude.{
  Text, Bool, true, false, List, some, [], ◌∷◌, ◌++◌, ◌≡◌, refl, sym, ap, ◌∙◌, ◌&&◌, ◌||◌, not, any,
  keep, lookup, member, member-keep, member-append, member-sorted_set, any-member, is_some,
  is_empty, Bool-cases, inl, inr, arith,
}
use nontainer.AgentGit.Trees.{Tree, in_way, differs}
use nontainer.AgentGit.Writes.{Untangled, all_clear}
use nontainer.AgentGit.Repo.{Repo}
use nontainer.AgentGit.Changes.{Session, IsSession, visible, base_tree}
use nontainer.AgentGit.Measured.{Finds, changes-Measured}
use nontainer.AgentGit.Commit.{Outcome, Plan, plan, plan_of, plan_from, tangled, chosen}

-- A path taken that the tree has, and one put back that the base has, can stand in one tree.
pub record Planned (modified : Text → Bool) (working : Tree) (p : Plan) : Type 0 where
  pub taken : (k : Text) → member k p.files ≡ true → modified k ≡ true
  pub reverted : (k : Text) → member k p.reverted ≡ (modified k && not (member k p.files))
  pub apart :
      (k j : Text)
      → member k p.files ≡ true
      → is_some (lookup k working) ≡ true
      → member j p.reverted ≡ true
      → is_some (lookup j p.base) ≡ true
      → in_way j k ≡ false

pub in_way_comm : (a b : Text) → in_way a b ≡ in_way b a
unfolding in_way
in_way_comm a b = ground arith

module _ (working base : Tree) (modified files : List Text) where
  present : List Text
  present = keep (λ path. is_some (lookup path working)) files

  member-present : (k : Text) → member k present ≡ (is_some (lookup k working) && member k files)
  unfolding present
  member-present k = member-keep (λ path. is_some (lookup path working)) k files

  member-tangled :
      (k : Text)
      → member k (tangled working base modified files) ≡ (
          (not (member k files) && (is_some (lookup k base) && any (in_way k) present))
          && member k modified)
  unfolding tangled present
  member-tangled k =
      member-keep
        (λ path.
          not (member path files) && (is_some (lookup path base) && any (in_way path) present))
        k modified

  member-taken :
      (k : Text)
      → member k (plan_of working base modified files).files
        ≡ (member k files || member k (tangled working base modified files))
  unfolding plan_of
  member-taken k =
      member-sorted_set k (files ++ tangled working base modified files)
      ∙ member-append k files (tangled working base modified files)

  member-left :
      (k : Text)
      → member k (plan_of working base modified files).reverted
        ≡ (not (member k (plan_of working base modified files).files) && member k modified)
  unfolding plan_of
  member-left k =
      let taken = (plan_of working base modified files).files in
      member-sorted_set k (keep (λ path. not (member path taken)) modified)
      ∙ member-keep (λ path. not (member path taken)) k modified

  -- A path that the tree has is in the way of no path taken that it has.
  none_in_way :
      (k : Text)
      → Untangled working
      → is_some (lookup k working) ≡ true
      → any (in_way k) present ≡ false
  unfolding Untangled
  none_in_way k u h =
      all_clear (in_way k) present (λ q m. u k q h (ground (arith, member-present q)))

  taken_apart :
      (k j : Text)
      → Untangled working
      → member k (plan_of working base modified files).files ≡ true
      → is_some (lookup k working) ≡ true
      → member j (plan_of working base modified files).reverted ≡ true
      → is_some (lookup j base) ≡ true
      → in_way j k ≡ false
  taken_apart k j u m h left at_base = elim (Bool-cases (in_way j k)) [
    | inr apart ↦ apart
    | inl way ↦
        let chosen_k : member k files ≡ true =
          ground (arith, member-taken k, member-tangled k, none_in_way k u h) in
        let blocked : any (in_way j) present ≡ true =
          any-member (in_way j) k present (ground (arith, member-present k)) way in
        absurd (ground (arith, member-left j, member-taken j, member-tangled j))
  ]

  pub plan_of-Planned :
      (test : Text → Bool)
      → Untangled working
      → ((k : Text) → member k modified ≡ test k)
      → ((k : Text) → member k files ≡ true → member k modified ≡ true)
      → Planned test working (plan_of working base modified files)
  unfolding plan_of
  plan_of-Planned test u same sub = record {
    taken = λ k m. ground (arith, member-taken k, member-tangled k, same k, sub k);
    reverted = λ k. ground (arith, member-left k, same k);
    apart = λ k j m h left at_base. taken_apart k j u m h left at_base;
  }

chosen_sub :
    (staged modified : List Text) (k : Text)
    → member k (chosen staged modified) ≡ true
    → member k modified ≡ true
unfolding chosen
chosen_sub [] modified k m = m
chosen_sub (p ∷ ps) modified k m =
    ground (arith, member-keep (λ path. member path (p ∷ ps)) k modified)

-- Whether a path of the session is one that a commit could take.
unfoldable pub is_modified : Session → Tree → Tree → Text → Bool
is_modified s base working k = visible s k && differs base working k

-- The plan of a commit from a base.
unfoldable pub PlannedFrom : Session → Repo → Tree → Plan → Type 0
PlannedFrom s r base p = (p.base ≡ base) × Planned (is_modified s base r.working) r.working p

plan_in : Plan → Outcome Plan → Plan
plan_in q (Outcome.done p) = p
plan_in q (Outcome.raised e) = q

plan_from-Planned :
    (s : Session) (r : Repo) (base : Tree) (modified : List Text) (p : Plan)
    → Untangled r.working
    → ((k : Text) → member k modified ≡ is_modified s base r.working k)
    → plan_from (some base) modified r ≡ Outcome.done p
    → PlannedFrom s r base p
unfolding PlannedFrom plan_of plan_in
plan_from-Planned s r base modified p u same e =
    elim (Bool-cases (is_empty (chosen r.blob.staged modified))) [
      | inl m ↦ absurd (cc (rw (m) at e))
      | inr m ↦
          let q = plan_of r.working base modified (chosen r.blob.staged modified) in
          let is_q : q ≡ p = ap (plan_in p) (rw (m) at e) in
          rw (sym is_q) (
            refl,
            plan_of-Planned r.working base modified (chosen r.blob.staged modified)
                (is_modified s base r.working) u same (chosen_sub r.blob.staged modified),
          )
    ]

-- A plan takes changed paths only, and puts back every other one.
pub plan-Planned :
    (s : Session) (r : Repo) (base : Tree) (p : Plan)
    → IsSession s
    → Untangled r.working
    → base_tree r.blob r ≡ some base
    → plan s r ≡ Outcome.done p
    → PlannedFrom s r base p
unfolding plan Finds is_modified
plan-Planned s r base p hs u e g =
    let (c, (found, measured)) = changes-Measured s r base hs e in
    elim (Bool-cases (is_empty c.paths)) [
      | inl m ↦ absurd (cc (rw (found, m, plan) at g))
      | inr m ↦ plan_from-Planned s r base c.paths p u measured.paths (rw (found, m, e, plan) at g)
    ]
