-- ===== src/AgentGit/Blob.antt =====
-- The agent's state in nontainer/agentgit.py: the record that each session keeps under one key, and
-- how it is stored and read back.
use nontainer.Prelude.{
  Text, concat, Bool, true, false, List, Option, none, some, [], ◌∷◌, if◌then◌else◌, ◌||◌, ◌==◌,
  Dict, text_eq, text_ltb, sort, ◌≡◌, refl, ap, ◌∙◌,
}
use nontainer.Values.{
  Value, null, text, number, mapping, list, Items, nil, cons, Fields, end, field, get_field,
  optional, texts,
}

pub record Blob : Type 0 where
  pub head : Option Text
  pub base : Option Text
  pub staged : List Text
  pub merge_source : Option Text
  pub unresolved : List Text
  pub pre_merge : Option Text
  pub stash : Option (Text × Text)
  pub tags : Dict Text

-- `x if isinstance(x, str) else None`
abbrev pub as_text : Value → Option Text
as_text (text t) = some t
as_text _ = none

abbrev strings_in : Items → List Text
strings_in nil = []
strings_in (cons (text t) vs) = t ∷ strings_in vs
strings_in (cons _ vs) = strings_in vs

-- `_strings`
unfoldable pub strings : Value → List Text
strings (list vs) = strings_in vs
strings _ = []

-- `_stash_record`
unfoldable pub stash_record : Value → Option (Text × Text)
stash_record (mapping d) = elim (as_text (get_field (concat "of") d)) [
  | none ↦ none
  | some of ↦ elim (as_text (get_field (concat "message") d)) [
    | none ↦ none
    | some message ↦ some (of, message)
  ]
]
stash_record _ = none

unfoldable pub sort_tag_in : Text → Text → Dict Text → Dict Text
sort_tag_in name commit [] = (name, commit) ∷ []
sort_tag_in name commit ((k, v) ∷ tags) =
    let rest = sort_tag_in name commit tags in
    if text_ltb name k then (name, commit) ∷ (k, v) ∷ tags else (k, v) ∷ rest

-- The tags in the order of their names.
unfoldable pub sort_tags : Dict Text → Dict Text
sort_tags [] = []
sort_tags ((name, commit) ∷ tags) = sort_tag_in name commit (sort_tags tags)

abbrev texts_at : Fields → Dict Text
texts_at end = []
texts_at (field name (text commit) d) = (name, commit) ∷ texts_at d
texts_at (field name _ d) = texts_at d

-- `_tag_map`
unfoldable pub tag_map : Value → Dict Text
tag_map (mapping d) = sort_tags (texts_at d)
tag_map _ = []

-- Whether a version is one of those that are read; `none` where it has no hash, and the test raises.
abbrev readable_version : Value → Option Bool
readable_version (number n) = some ((n == 2) || (n == 3))
readable_version (list vs) = none
readable_version (mapping d) = none
readable_version _ = some false

unfoldable pub blob_of : Fields → Blob
blob_of d = record {
  head = as_text (get_field (concat "head") d);
  base = as_text (get_field (concat "base") d);
  staged = sort (strings (get_field (concat "staged") d));
  merge_source = as_text (get_field (concat "merge_source") d);
  unresolved = sort (strings (get_field (concat "unresolved") d));
  pre_merge = as_text (get_field (concat "pre_merge") d);
  stash = stash_record (get_field (concat "stash") d);
  tags = tag_map (get_field (concat "tags") d);
}

abbrev versioned : Fields → Option Blob
versioned d = elim (readable_version (get_field (concat "version") d)) [
  | none ↦ none
  | some true ↦ some (blob_of d)
  | some false ↦ some (blob_of end)
]

abbrev decoded : Option Value → Option Blob
decoded (some (mapping d)) = versioned d
decoded _ = some (blob_of end)

-- `json.dumps` of a mapping, with `encode`, and `json.loads`, which may raise; `B` holds the bytes and
-- whatever else may stand at the key but a mapping.
pub record Json (B : Type 0) : Type 0 where
  pub dumps : Fields → B
  pub loads : B → Option Value

-- What was dumped is read back as it was.
pub record IsJson {B : Type 0} (json : Json B) : Type 0 where
  pub loads-dumps : (d : Fields) → json.loads (json.dumps d) ≡ some (mapping d)

-- What a read of the key gives.
pub data Raw (B : Type 0) : Type 0 where
  absent : Raw B
  already : Fields → Raw B
  stored : B → Raw B

-- `parse_blob`; `none` where it raises.
unfoldable pub parse_blob : {B : Type 0} → Json B → Raw B → Option Blob
parse_blob json (Raw.already d) = versioned d
parse_blob json Raw.absent = some (blob_of end)
parse_blob json (Raw.stored raw) = decoded (json.loads raw)

abbrev stash_value : Option (Text × Text) → Value
stash_value none = null
stash_value (some (of, message)) =
    mapping (field (concat "of") (text of) (field (concat "message") (text message) end))

abbrev tag_fields : Dict Text → Fields
tag_fields [] = end
tag_fields ((name, commit) ∷ tags) = field name (text commit) (tag_fields tags)

abbrev stored_fields : Blob → Fields
stored_fields b = field (concat "base") (optional b.base) (
    field (concat "head") (optional b.head) (
      field (concat "merge_source") (optional b.merge_source) (
        field (concat "pre_merge") (optional b.pre_merge) (
          field (concat "staged") (list (texts (sort b.staged))) (
            field (concat "stash") (stash_value b.stash) (
              field (concat "tags") (mapping (tag_fields (sort_tags b.tags))) (
                field (concat "unresolved") (list (texts (sort b.unresolved)))
                  (field (concat "version") (number 3) end))))))))

-- `_encode_blob`
unfoldable pub encode_blob : {B : Type 0} → Json B → Blob → B
encode_blob json b = json.dumps (stored_fields b)

-- The state of a session that has none.
abbrev pub fresh_blob : Blob
fresh_blob = record {
  head = none;
  base = none;
  staged = [];
  merge_source = none;
  unresolved = [];
  pre_merge = none;
  stash = none;
  tags = [];
}

-- The lists of a blob are in order, as every read leaves them.
pub record Tidy (b : Blob) : Type 0 where
  pub staged : sort b.staged ≡ b.staged
  pub unresolved : sort b.unresolved ≡ b.unresolved
  pub tags : sort_tags b.tags ≡ b.tags

strings-texts : (ts : List Text) → strings (list (texts ts)) ≡ ts
unfolding strings
strings-texts [] = refl
strings-texts (t ∷ ts) = ap (λ us. t ∷ us) (strings-texts ts)

texts_at-tag_fields : (tags : Dict Text) → texts_at (tag_fields tags) ≡ tags
texts_at-tag_fields [] = refl
texts_at-tag_fields ((name, commit) ∷ tags) =
    ap (λ us. (name, commit) ∷ us) (texts_at-tag_fields tags)

as_text-optional : (o : Option Text) → as_text (optional o) ≡ o
as_text-optional none = refl
as_text-optional (some t) = refl

stash_record-stash_value : (s : Option (Text × Text)) → stash_record (stash_value s) ≡ s
unfolding stash_record text_eq
stash_record-stash_value none = refl
stash_record-stash_value (some (of, message)) = refl

versioned-stored_fields : (b : Blob) → Tidy b → versioned (stored_fields b) ≡ some b
unfolding blob_of tag_map text_eq
versioned-stored_fields b t =
    rw
      (
        as_text-optional b.head,
        as_text-optional b.base,
        as_text-optional b.merge_source,
        as_text-optional b.pre_merge,
        strings-texts (sort b.staged),
        strings-texts (sort b.unresolved),
        stash_record-stash_value b.stash,
        texts_at-tag_fields (sort_tags b.tags),
      )
      (simp (t.staged, t.unresolved, t.tags))

-- A state stored and read back is itself, where its lists are in order.
pub parse_blob-encode_blob :
    {B : Type 0} (json : Json B) (b : Blob)
    → IsJson json
    → Tidy b
    → parse_blob json (Raw.stored (encode_blob json b)) ≡ some b
unfolding encode_blob parse_blob
parse_blob-encode_blob json b h t =
    ap decoded (h.loads-dumps (stored_fields b)) ∙ versioned-stored_fields b t
