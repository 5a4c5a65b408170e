-- ===== src/AgentGit/Measured.antt =====
-- Which paths nontainer/agentgit.py reports as changed.
use nontainer.Prelude.{
  Text, true, false, List, Option, none, some, [], ◌∷◌, ◌++◌, ◌||◌, ◌&&◌, not, lookup, keys, member,
  member-keep, member-append, member-keys, text_eq, text_eq_iff, is_some, is_empty, keep, ◌≡◌, refl,
  ap, sym, ◌∙◌, arith, Bool-cases, Option-cases, inl, inr, lookup-nil,
}
use nontainer.AgentGit.Trees.{Tree, differ, differs, diff_paths}
use nontainer.AgentGit.Repo.{Repo, Entry, tree_in, files_at, entry_of, head_id, head_tree}
use nontainer.AgentGit.Changes.{
  Session, IsSession, visible, baseline, no_changes, changes_since, new_files, changes_from,
  same_id, tree_from, Changes, changes, base_tree,
}

-- What the changes from a tree to another say of each path.
pub record Measured (s : Session) (base working : Tree) (c : Changes) : Type 0 where
  pub paths : (k : Text) → member k c.paths ≡ (visible s k && differs base working k)
  pub added :
      (k : Text)
      → member k c.added
        ≡ (visible s k && (is_some (lookup k working) && not (is_some (lookup k base))))
  pub removed :
      (k : Text)
      → member k c.removed
        ≡ (visible s k && (is_some (lookup k base) && not (is_some (lookup k working))))

pub differ_refl : (v : Option Text) → differ v v ≡ false
unfolding differ
differ_refl none = refl
differ_refl (some v) = ground (arith, text_eq_iff v v)

somewhere : (u v : Option Text) → (differ u v && (is_some u || is_some v)) ≡ differ u v
unfolding differ
somewhere none none = refl
somewhere none (some v) = refl
somewhere (some u) none = refl
somewhere (some u) (some v) = ground arith

only_after : (u v : Option Text) → (differ u v && not (is_some u)) ≡ (is_some v && not (is_some u))
unfolding differ
only_after none none = refl
only_after none (some v) = refl
only_after (some u) v = ground arith

only_before : (u v : Option Text) → (differ u v && not (is_some v)) ≡ (is_some u && not (is_some v))
unfolding differ
only_before none none = refl
only_before none (some v) = refl
only_before (some u) none = refl
only_before (some u) (some v) = ground arith

-- Two trees differ at a path of one of them only.
pub member-diff_paths : (a b : Tree) (k : Text) → member k (diff_paths a b) ≡ differs a b k
unfolding diff_paths differs
member-diff_paths a b k =
    member-keep (differs a b) k (keys a ++ keys b)
    ∙ rw (member-append k (keys a) (keys b), member-keys k a, member-keys k b)
        (somewhere (lookup k a) (lookup k b))

changes_since-Measured :
    (s : Session) (base working : Tree) → Measured s base working (changes_since s base working)
unfolding differs
changes_since-Measured s base working =
    let at_path : (k : Text)
        → member k (keep (visible s) (diff_paths base working))
          ≡ (visible s k && differs base working k) =
      λ k.
        member-keep (visible s) k (diff_paths base working)
        ∙ ap (λ b. visible s k && b) (member-diff_paths base working k) in
    record {
      paths = at_path;
      added = λ k. ground (
        arith,
        at_path k,
        only_after (lookup k base) (lookup k working),
        member-keep (λ path. not (is_some (lookup path base))) k
            (keep (visible s) (diff_paths base working)),
      );
      removed = λ k. ground (
        arith,
        at_path k,
        only_before (lookup k base) (lookup k working),
        member-keep (λ path. not (is_some (lookup path working))) k
            (keep (visible s) (diff_paths base working)),
      );
    }

differ-none : (v : Option Text) → differ none v ≡ is_some v
unfolding differ
differ-none none = refl
differ-none (some v) = refl

new_files-Measured : (s : Session) (working : Tree) → Measured s [] working (new_files s working)
unfolding differs lookup member
new_files-Measured s working =
    let at_path : (k : Text)
        → member k (keep (visible s) (keys working)) ≡ (visible s k && is_some (lookup k working)) =
      λ k.
        member-keep (visible s) k (keys working)
        ∙ ap (λ b. visible s k && b) (member-keys k working) in
    record {
      paths = λ k. at_path k ∙ ap (λ b. visible s k && b) (sym (differ-none (lookup k working)));
      added = λ k. ground (arith, at_path k, lookup-nil {V = Text} k);
      removed = λ k. ground (arith, lookup-nil {V = Text} k);
    }

-- Where nothing is pending and the head is the store's, nothing has changed.
no_changes-Measured :
    (s : Session) (base working : Tree)
    → ((k : Text) → lookup k base ≡ lookup k working)
    → Measured s base working no_changes
unfolding differs member
no_changes-Measured s base working same = record {
  paths = λ k. rw (same k, differ_refl (lookup k working)) (ground arith);
  added = λ k. rw (same k) (ground arith);
  removed = λ k. rw (same k) (ground arith);
}

first_entry :
    (id : Text) (es : List Entry)
    → same_id id (head_id es) ≡ true
    → tree_in (entry_of id es) ≡ some (head_tree es)
unfolding entry_of
first_entry id [] h = absurd (cc)
first_entry id (entry ∷ es) h =
    let same : text_eq entry.id id ≡ true =
      ground (arith, text_eq_iff id entry.id, text_eq_iff entry.id id) in
    rw (same) refl

-- How `_changes` ends where the tree to measure from is there.
unfoldable pub Finds : Session → Repo → Tree → Option Changes → Type 0
Finds s r base found = (c : Changes) × ((found ≡ some c) × Measured s base r.working c)

changes_from-Measured :
    (s : Session) (r : Repo) (id : Text) (base : Tree)
    → IsSession s
    → files_at id r ≡ some base
    → Finds s r base (changes_from s id r)
unfolding Finds files_at
changes_from-Measured s r id base hs e =
    elim (Bool-cases (same_id id (head_id r.history) && not (s.dirty r))) [
      | inl shortcut ↦
          let at_head : files_at id r ≡ some (head_tree r.history) =
            first_entry id r.history (ground arith) in
          let same : base ≡ head_tree r.history =
            ap (λ o. elim o [ none ↦ [] | some t ↦ t ]) (sym e ∙ at_head) in
          (
            no_changes,
            (
              rw (shortcut) refl,
              no_changes-Measured s base r.working (λ k. rw (same) (hs.clean r (ground arith) k)),
            ),
          )
      | inr walk ↦ (
        changes_since s base r.working,
        (rw (walk, e) refl, changes_since-Measured s base r.working),
      )
    ]

changes_lem :
    (s : Session) (r : Repo) (base : Tree) (head start : Option Text)
    → IsSession s
    → tree_from head start r ≡ some base
    → Finds s r base (changes s head start r)
unfolding Finds changes tree_from baseline
changes_lem s r base none none hs e =
    let same : [] ≡ base = ap (λ o. elim o [ none ↦ [] | some t ↦ t ]) e in
    (new_files s r.working, (refl, rw⁻¹ (same) (new_files-Measured s r.working)))
changes_lem s r base none (some id) hs e = changes_from-Measured s r id base hs e
changes_lem s r base (some head) start hs e = elim (Bool-cases (is_empty head)) [
  | inl m ↦ elim (Option-cases start) [
    | inl n ↦ absurd (cc (rw (m, n, tree_from) at e))
    | inr (id, n) ↦
        rw (m, n, changes) (changes_from-Measured s r id base hs (rw (m, n, tree_from) at e))
  ]
  | inr m ↦ rw (m, changes) (changes_from-Measured s r head base hs (rw (m, tree_from) at e))
]

-- Where the tree that the agent's work is measured from is there, the changes are found: a visible
-- path is among them exactly when the two trees differ at it.
pub changes-Measured :
    (s : Session) (r : Repo) (base : Tree)
    → IsSession s
    → base_tree r.blob r ≡ some base
    → Finds s r base (changes s r.blob.head r.blob.base r)
unfolding base_tree
changes-Measured s r base hs e = changes_lem s r base r.blob.head r.blob.base hs e
