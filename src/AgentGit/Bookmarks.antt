-- ===== src/AgentGit/Bookmarks.antt =====
-- What the agent's tags and refs in nontainer/agentgit.py name.
use nontainer.Prelude.{
  Text, concat, Bool, true, false, Option, none, some, [], ◌∷◌, if◌then◌else◌, ◌||◌, ◌&&◌, not, ◌≡◌,
  refl, ap, ◌∙◌, Dict, IsDict, lookup, insert, lookup-insert, insert-IsDict, text_eq, text_eq_iff,
  text_eq_refl, is_some, Bool-cases, Option-cases, inl, inr, arith,
}
use nontainer.AgentGit.Blob.{sort_tags, sort_tag_in}
use nontainer.AgentGit.Repo.{Repo}
use nontainer.AgentGit.Commit.{Outcome}
use nontainer.AgentGit.Record.{refusal}
use nontainer.AgentGit.Tags.{check_tag_name, resolve, with_tags, set_tag, or_head, tag}

lookup-sort_tag_in :
    (name commit : Text) (tags : Dict Text) (k : Text)
    → lookup name tags ≡ none
    → lookup k (sort_tag_in name commit tags)
      ≡ (if text_eq name k then some commit else lookup k tags)
unfolding sort_tag_in lookup
lookup-sort_tag_in name commit [] k e = refl
lookup-sort_tag_in name commit ((j, v) ∷ tags) k e = ground (
  arith,
  text_eq_iff name k,
  text_eq_iff j k,
  text_eq_iff j name,
  lookup-sort_tag_in name commit tags k,
)

-- The tags in order are the tags.
lookup-sort_tags :
    (tags : Dict Text) (k : Text) → IsDict tags → lookup k (sort_tags tags) ≡ lookup k tags
unfolding sort_tags lookup
lookup-sort_tags [] k h = refl
lookup-sort_tags ((name, commit) ∷ tags) k (new, h) =
    lookup-sort_tag_in name commit (sort_tags tags) k (lookup-sort_tags tags name h ∙ new)
    ∙ ap (λ v. if text_eq name k then some commit else v) (lookup-sort_tags tags k h)

resolve_tag :
    (name commit : Text) (r : Repo)
    → r.indexed ≡ true
    → text_eq name (concat "HEAD") ≡ false
    → lookup name r.blob.tags ≡ some commit
    → resolve name r ≡ Outcome.done commit
unfolding resolve
resolve_tag name commit r i h e = ground arith

set_tag-resolve :
    (name c : Text) (found : Outcome Text) (r : Repo)
    → r.indexed ≡ true
    → text_eq name (concat "HEAD") ≡ false
    → IsDict r.blob.tags
    → (set_tag name found r).0 ≡ Outcome.done c
    → resolve name (set_tag name found r).1 ≡ Outcome.done c
set_tag-resolve name c (Outcome.raised e) r i h d g = absurd (cc)
set_tag-resolve name c (Outcome.done commit) r i h d g =
    resolve_tag name c (with_tags (sort_tags (insert name commit r.blob.tags)) r) i h (
      lookup-sort_tags (insert name commit r.blob.tags) name
        (insert-IsDict name commit r.blob.tags d)
      ∙ (lookup-insert name name commit r.blob.tags
          ∙ rw (text_eq_refl name) (ap (λ o. some o) (cc))))

resolve_same :
    (k : Text) (tags : Dict Text) (r : Repo)
    → lookup k tags ≡ lookup k r.blob.tags
    → resolve k (with_tags tags r) ≡ resolve k r
unfolding resolve text_eq lookup
resolve_same k tags r e = rw (e) refl

set_tag-others :
    (name k : Text) (found : Outcome Text) (r : Repo)
    → text_eq name k ≡ false
    → IsDict r.blob.tags
    → resolve k (set_tag name found r).1 ≡ resolve k r
set_tag-others name k (Outcome.raised e) r other d = refl
set_tag-others name k (Outcome.done commit) r other d =
    resolve_same k (sort_tags (insert name commit r.blob.tags)) r (
      lookup-sort_tags (insert name commit r.blob.tags) k (insert-IsDict name commit r.blob.tags d)
      ∙ (lookup-insert name k commit r.blob.tags ∙ rw (other) refl))

indexed_of : (r : Repo) → refusal r ≡ none → r.indexed ≡ true
unfolding refusal
indexed_of r h = elim (Bool-cases r.indexed) [ inl i ↦ i | inr i ↦ absurd (cc (rw (i) at h)) ]

-- What a tag that was set leaves: its name is the commit, and other refs are what they were.
pub record Bookmarked (name commit : Text) (r r' : Repo) : Type 0 where
  pub named : resolve name r' ≡ Outcome.done commit
  pub others : (k : Text) → text_eq name k ≡ false → resolve k r' ≡ resolve k r

-- Once a name other than `HEAD` was given to a commit, it is read back as that commit, and every other
-- ref as what it was, where no name stands twice among the tags.
pub tag-resolve :
    (name : Text) (ref : Option Text) (force : Bool) (r : Repo) (commit : Text)
    → IsDict r.blob.tags
    → text_eq name (concat "HEAD") ≡ false
    → (tag name ref force r).0 ≡ Outcome.done commit
    → Bookmarked name commit r (tag name ref force r).1
unfolding tag
tag-resolve name ref force r commit d other g = elim (Option-cases (refusal r)) [
  | inr (e, why) ↦ absurd (cc (rw (why, tag) at g))
  | inl h ↦
      elim (Bool-cases
        (check_tag_name name && (not (is_some (lookup name r.blob.tags)) || force))) [
          | inr bad ↦ absurd (cc (rw (h, bad, tag) at g))
          | inl good ↦
              rw (h, good, tag)
                (record {
                  named =
                      set_tag-resolve name commit (resolve (or_head ref) r) r (indexed_of r h) other
                        d (rw (h, good, tag) at g);
                  others = λ k unlike. set_tag-others name k (resolve (or_head ref) r) r unlike d;
                })
        ]
]
