-- ===== src/Paths.antt =====
-- Paths as Python's posixpath takes them apart, which nontainer/views.py works with.
use nontainer.Prelude.{
  Text, concat, ℕ, Bool, false, List, [], ◌∷◌, ◌++◌, if◌then◌else◌, ◌==◌, text_eq, is_empty,
  starts_with, ◌||◌, ◌&&◌, not,
}

abbrev pub add_code : ℕ → List Text → List Text
add_code c [] = (c ∷ []) ∷ []
add_code c (s ∷ ss) = (c ∷ s) ∷ ss

-- `path.split("/")`
unfoldable pub split_slash : Text → List Text
split_slash [] = [] ∷ []
split_slash (c ∷ t) = let rest = split_slash t in if c == 47 then [] ∷ rest else add_code c rest

-- `"/".join(parts)`
unfoldable pub join_slash : List Text → Text
join_slash [] = []
join_slash (s ∷ []) = s
join_slash (s ∷ t ∷ ss) = s ++ (47 ∷ join_slash (t ∷ ss))

-- The components so far, the last one first, with one more.
unfoldable pub push_part : Bool → List Text → Text → List Text
push_part rooted parts part =
    if is_empty part || text_eq part (concat ".")
    then parts
    else if text_eq part (concat "..")
    then elim parts [
      | [] ↦ if rooted then [] else part ∷ []
      | top ∷ rest ↦ if text_eq top (concat "..") then part ∷ top ∷ rest else rest
    ]
    else part ∷ parts

unfoldable pub push_parts : Bool → List Text → List Text → List Text
push_parts rooted parts [] = parts
push_parts rooted parts (part ∷ more) = push_parts rooted (push_part rooted parts part) more

unfoldable pub reverse_onto : List Text → List Text → List Text
reverse_onto [] acc = acc
reverse_onto (s ∷ ss) acc = reverse_onto ss (s ∷ acc)

-- The slashes that a path keeps in front: two where it begins with two exactly.
abbrev pub slashes : Text → Text
slashes path =
    if starts_with (concat "//") path && not (starts_with (concat "///") path)
    then concat "//"
    else if starts_with (concat "/") path
    then concat "/"
    else []

-- `posixpath.normpath`
unfoldable pub normpath : Text → Text
normpath path =
    let parts = push_parts (not (is_empty (slashes path))) [] (split_slash path) in
    let out = slashes path ++ join_slash (reverse_onto parts []) in
    if is_empty out then concat "." else out

abbrev pub ends_with_slash : Text → Bool
ends_with_slash [] = false
ends_with_slash (c ∷ []) = c == 47
ends_with_slash (c ∷ d ∷ t) = ends_with_slash (d ∷ t)

-- `posixpath.join`, of two paths.
unfoldable pub join_path : Text → Text → Text
join_path a b =
    if starts_with (concat "/") b
    then b
    else if is_empty a || ends_with_slash a
    then a ++ b
    else a ++ (47 ∷ b)

-- `path.rstrip("/")`
unfoldable pub strip_slashes : Text → Text
strip_slashes [] = []
strip_slashes (c ∷ t) =
    let rest = strip_slashes t in if is_empty rest && (c == 47) then [] else c ∷ rest

-- The text up to and with its last slash.
unfoldable pub head_of : Text → Text
head_of [] = []
head_of (c ∷ t) =
    let rest = head_of t in if is_empty rest then (if c == 47 then c ∷ [] else []) else c ∷ rest

-- `posixpath.dirname`
unfoldable pub dirname : Text → Text
dirname path =
    let stripped = strip_slashes (head_of path) in
    if is_empty stripped then head_of path else stripped
