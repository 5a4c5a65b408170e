-- ===== src/AgentGit/Staged.antt =====
-- What staging and unstaging in nontainer/agentgit.py leave in the index.
use nontainer.Prelude.{
  Text, Bool, true, false, List, none, [], ◌∷◌, ◌++◌, ◌||◌, ◌&&◌, not, ◌≡◌, ◌⊎◌, refl, sym, ap, ◌∙◌,
  member, member-keep, member-append, member-sorted_set, is_empty, keep, Bool-cases, Option-cases,
  inl, inr, arith, text_eq, text_eq_iff,
}
use nontainer.AgentGit.Repo.{Repo, files_at}
use nontainer.AgentGit.Changes.{Session}
use nontainer.AgentGit.Commit.{Outcome}
use nontainer.AgentGit.Record.{refusal}
use nontainer.AgentGit.Index.{
  unique_after, unique, head_files, check_paths, with_staged, staged_new, staged_less, on_paths,
  stage, unstage,
}

member-unique_after :
    (met ps : List Text) (k : Text)
    → member k (unique_after met ps) ≡ (member k ps && not (member k met))
unfolding unique_after member
member-unique_after met [] k = refl
member-unique_after met (p ∷ ps) k = elim (Bool-cases (member p met)) [
  | inl m ↦ rw (m, unique_after) (ground (arith, member-unique_after met ps k, text_eq_iff p k))
  | inr m ↦
      rw (m, unique_after) (ground (arith, member-unique_after (p ∷ met) ps k, text_eq_iff p k))
]

member-unique : (ps : List Text) (k : Text) → member k (unique ps) ≡ member k ps
unfolding unique member
member-unique ps k = member-unique_after [] ps k ∙ ground arith

none_kept :
    (test : Text → Bool) (ps : List Text)
    → is_empty (keep test ps) ≡ true
    → (k : Text) → member k ps ≡ true
    → test k ≡ false
unfolding member
none_kept test [] e k m = absurd (cc)
none_kept test (p ∷ ps) e k m = elim (Bool-cases (test p)) [
  | inl t ↦ absurd (cc (rw (t) at e))
  | inr t ↦ elim (Bool-cases (text_eq p k)) [
    | inl same ↦ ap test (sym ((text_eq_iff p k).0 same)) ∙ t
    | inr other ↦ none_kept test ps (rw (t) at e) k (ground arith)
  ]
]

-- What a verb leaves in the index, and what it returns.
pub record Restaged (staged added : Text → Bool) (r : Repo) (res : Outcome (List Text) × Repo)
    : Type 0 where
  pub index : (k : Text) → member k res.1.blob.staged ≡ staged k
  pub returned : (a : List Text) → res.0 ≡ Outcome.done a → (k : Text) → member k a ≡ added k
  pub elsewhere : res.1 ≡ with_staged res.1.blob.staged r

done_list : Outcome (List Text) → List Text
done_list (Outcome.done a) = a
done_list (Outcome.raised e) = []

staged_new-Restaged :
    (ps : List Text) (r : Repo)
    → Restaged
        (λ k. member k r.blob.staged || member k ps)
        (λ k. member k ps && not (member k r.blob.staged))
        r
        (staged_new ps r)
unfolding done_list member
staged_new-Restaged ps r =
    let fresh : Text → Bool = λ p. not (member p r.blob.staged) in
    elim (Bool-cases (is_empty (keep fresh ps))) [
      | inl e ↦ rw (e) (record {
        index = λ k. ground (arith, none_kept fresh ps e k);
        returned = λ a g k. rw (sym (ap done_list g)) (ground (arith, none_kept fresh ps e k));
        elsewhere = refl;
      })
      | inr e ↦ rw (e) (record {
        index = λ k. member-sorted_set k (r.blob.staged ++ ps) ∙ member-append k r.blob.staged ps;
        returned = λ a g k. rw (sym (ap done_list g)) (ground (arith, member-keep fresh k ps));
        elsewhere = refl;
      })
    ]

staged_less-Restaged :
    (ps : List Text) (r : Repo)
    → Restaged
        (λ k. member k r.blob.staged && not (member k ps))
        (λ k. member k ps && member k r.blob.staged)
        r
        (staged_less ps r)
unfolding done_list member
staged_less-Restaged ps r =
    let there : Text → Bool = λ p. member p r.blob.staged in
    let removed = keep there ps in
    let left : Text → Bool = λ p. not (member p removed) in
    elim (Bool-cases (is_empty removed)) [
      | inl e ↦ rw (e) (record {
        index = λ k. ground (arith, none_kept there ps e k);
        returned = λ a g k. rw (sym (ap done_list g)) (ground (arith, none_kept there ps e k));
        elsewhere = refl;
      })
      | inr e ↦ rw (e) (record {
        index = λ k. ground (
          arith,
          member-sorted_set k (keep left r.blob.staged),
          member-keep left k r.blob.staged,
          member-keep there k ps,
        );
        returned = λ a g k. rw (sym (ap done_list g)) (ground (arith, member-keep there k ps));
        elsewhere = refl;
      })
    ]

-- A verb that is let through runs.
on_paths_runs :
    (verb : List Text → Repo → Outcome (List Text) × Repo) (s : Session) (ps : List Text) (r : Repo)
    → refusal r ≡ none
    → is_empty ps ≡ false
    → check_paths s ps r ≡ none
    → on_paths verb s ps r ≡ verb ps r
on_paths_runs verb s ps r h e c = rw (h, e, c, on_paths) refl

-- How a verb that returned came to.
Ran : (List Text → Repo → Outcome (List Text) × Repo) → Session → List Text → Repo → Type 0
Ran verb s ps r =
    (refusal r ≡ none)
    × (((is_empty ps ≡ true) × (on_paths verb s ps r ≡ (Outcome.done [], r)))
        ⊎ ((is_empty ps ≡ false)
            × ((check_paths s ps r ≡ none) × (on_paths verb s ps r ≡ verb ps r))))

on_paths-Ran :
    (verb : List Text → Repo → Outcome (List Text) × Repo) (s : Session) (ps : List Text) (r : Repo)
    (a : List Text)
    → (on_paths verb s ps r).0 ≡ Outcome.done a
    → Ran verb s ps r
unfolding Ran
on_paths-Ran verb s ps r a g = elim (Option-cases (refusal r)) [
  | inr (e, why) ↦ absurd (cc (rw (why, on_paths) at g))
  | inl h ↦ elim (Bool-cases (is_empty ps)) [
    | inl e ↦ (h, inl (e, rw (h, e, on_paths) refl))
    | inr e ↦ elim (Option-cases (check_paths s ps r)) [
      | inl c ↦ (h, inr (e, (c, on_paths_runs verb s ps r h e c)))
      | inr (x, c) ↦ absurd (cc (rw (h, e, c, on_paths) at g))
    ]
  ]
]

no_member : (ps : List Text) (k : Text) → is_empty ps ≡ true → member k ps ≡ false
unfolding member
no_member [] k e = refl
no_member (p ∷ ps) k e = absurd (cc)

-- A verb that is let through is let through after another has changed the index.
runs_after :
    (verb : List Text → Repo → Outcome (List Text) × Repo) (s : Session) (ps : List Text)
    (r r' : Repo)
    → refusal r ≡ none
    → is_empty ps ≡ false
    → check_paths s ps r ≡ none
    → r' ≡ with_staged r'.blob.staged r
    → on_paths verb s ps r' ≡ verb ps r'
unfolding refusal check_paths head_files files_at
runs_after verb s ps r r' h e c same =
    on_paths_runs verb s ps r' (ap refusal same ∙ h) e (ap (check_paths s ps) same ∙ c)

-- How unstaging ends: the index without the paths, and the ones that were in it.
pub record Unstaged (staged paths : List Text) (res : Outcome (List Text) × Repo) : Type 0 where
  pub removed : List Text
  pub result : res.0 ≡ Outcome.done removed
  pub index : (k : Text) → member k res.1.blob.staged ≡ (member k staged && not (member k paths))
  pub all_removed : (k : Text) → member k removed ≡ member k paths

less_result :
    (ps : List Text) (r : Repo) → (a : List Text) × ((staged_less ps r).0 ≡ Outcome.done a)
less_result ps r = elim (Bool-cases (is_empty (keep (λ p. member p r.blob.staged) ps))) [
  | inl e ↦ ([], rw (e) refl)
  | inr e ↦ (keep (λ p. member p r.blob.staged) ps, rw (e) refl)
]

Unstaged-after :
    (s : Session) (ps us : List Text) (r : Repo)
    → ((k : Text) → member k us ≡ member k ps)
    → Ran staged_new s us r
    → Unstaged r.blob.staged ps (on_paths staged_less s us (on_paths staged_new s us r).1)
unfolding Ran member
Unstaged-after s ps us r same (h, inl (e, eq)) =
    rw (eq, h, e, on_paths)
      (record {
        removed = [];
        result = refl;
        index = λ k. ground (arith, no_member us k e, same k);
        all_removed = λ k. sym (no_member us k e) ∙ same k;
      })
Unstaged-after s ps us r same (h, inr (e, (c, eq))) =
    let new = staged_new-Restaged us r in
    let r' = (staged_new us r).1 in
    let less = staged_less-Restaged us r' in
    let (removed, result) = less_result us r' in
    rw (eq, runs_after staged_less s us r r' h e c new.elsewhere)
      (record {
        removed = removed;
        result = result;
        index = λ k. ground (arith, less.index k, new.index k, same k);
        all_removed = λ k. ground (arith, less.returned removed result k, new.index k, same k);
      })

-- After paths were staged, unstaging the same paths is never refused: it returns all of them, and
-- leaves the index as it was before without them.
pub stage-unstage :
    (s : Session) (paths : List Text) (r : Repo) (added : List Text)
    → (stage s paths r).0 ≡ Outcome.done added
    → Unstaged r.blob.staged paths (unstage s paths (stage s paths r).1)
unfolding stage unstage
stage-unstage s paths r added g =
    Unstaged-after s paths (unique paths) r (member-unique paths)
      (on_paths-Ran staged_new s (unique paths) r added g)
