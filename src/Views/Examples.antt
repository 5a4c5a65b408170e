-- ===== src/Views/Examples.antt =====
-- The theorems on nontainer/views.py at a small view of a small tree, and test runs.
use nontainer.Prelude.{
  Text, concat, ◌≡◌, refl, true, false, Option, none, some, [], ◌∷◌, member, text_eq, if◌then◌else◌,
  starts_with, sorted_set, sort, distinct, sort_in, text_ltb,
}
use nontainer.Paths.{
  normpath, join_slash, reverse_onto, push_parts, split_slash, push_part, join_path,
}
use nontainer.Views.{
  Fs, View, Guard, narrow, abs, visible_abs, reachable, guard_write, guard_writes, admit, visible,
  below, escapes, shows,
}
use nontainer.Views.Guarded.{Ruled, guard_write-Ruled, Batched, guard_writes-Batched}
use nontainer.Views.Admitted.{Admitted, admit-Admitted}

abbrev mine : Text
mine = concat "/workspace/auth/login.py"

abbrev theirs : Text
theirs = concat "/workspace/db/schema.sql"

abbrev fresh : Text
fresh = concat "/workspace/notes.txt"

-- A tree of two files, where a link in the shown part leads to the hidden one.
abbrev resolve : Text → Option Text
resolve path = some (if text_eq path (concat "/workspace/auth/link") then theirs else path)

abbrev tree : Fs
tree = record {
  cwd = concat "/workspace";
  present = λ p. member p (mine ∷ theirs ∷ []);
  realpath = some resolve;
  islink = none;
}

abbrev auth : View
auth = narrow (concat "/workspace/auth" ∷ []) true (some (concat "/workspace"))

guard_write-Ruled_example : Ruled tree fresh auth (guard_write tree fresh auth)
guard_write-Ruled_example = guard_write-Ruled tree fresh auth

guard_writes-Batched_example :
    Batched tree (fresh ∷ mine ∷ []) auth (guard_writes tree (fresh ∷ mine ∷ []) auth)
guard_writes-Batched_example = guard_writes-Batched tree (fresh ∷ mine ∷ []) auth

admit-Admitted_example :
    Admitted tree (fresh ∷ mine ∷ []) auth (admit tree (fresh ∷ mine ∷ []) auth)
admit-Admitted_example = admit-Admitted tree (fresh ∷ mine ∷ []) auth

normpath_run : normpath (concat "/workspace/auth/../db/./schema.sql") ≡ theirs
unfolding normpath starts_with join_slash reverse_onto push_parts split_slash push_part text_eq
normpath_run = refl

hidden_run : (guard_write tree theirs auth).0 ≡ Guard.refused
unfolding reachable visible visible_abs text_eq abs starts_with normpath join_slash reverse_onto
    push_parts split_slash push_part narrow below sorted_set sort distinct join_path member sort_in
    text_ltb escapes shows guard_write
hidden_run = refl

link_run : reachable tree auth (concat "/workspace/auth/link") ≡ false
unfolding reachable visible visible_abs text_eq abs starts_with normpath join_slash reverse_onto
    push_parts split_slash push_part narrow below sorted_set sort distinct join_path member sort_in
    text_ltb escapes shows
link_run = refl

fresh_run : (guard_write tree fresh auth).0 ≡ Guard.allowed
unfolding reachable visible visible_abs text_eq abs starts_with normpath join_slash reverse_onto
    push_parts split_slash push_part narrow below sorted_set sort distinct join_path member sort_in
    text_ltb escapes shows guard_write
fresh_run = refl
