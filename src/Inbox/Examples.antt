-- ===== src/Inbox/Examples.antt =====
-- The theorems on nontainer/inbox.py at small inboxes and texts, and test runs of its functions.
use nontainer.Prelude.{
  Text, String, concat, ◌+◌, ◌≡◌, refl, ◌⊎◌, true, ◌&&◌, Option, none, some, [], ◌∷◌, ◌++◌, text_eq,
  starts_with, if◌then◌else◌, arith,
}
use nontainer.Inbox.Notes.{Note, NoteKind}
use nontainer.Inbox.Decimal.{print, ascii_digit, ascii_digit-IsDigits}
use nontainer.Inbox.Render.{Frame, mark, trailer, render, match_trailer, search_trailer, split}
use nontainer.Inbox.Render.RoundTrip.{split-render, split_halves}
use nontainer.Inbox.{Inbox, Words, create, mint, put, drain, requeue, withdraw, restore}
use nontainer.Inbox.Counting.{held}
use nontainer.Inbox.Valid.{
  IsValid, put_one, drain_all, Reach, start, next, Reach-IsValid, held-restore, held-withdraw,
}
use nontainer.Inbox.Undone.{put_all, requeue-drain}

abbrev pub said : String → Words
said t = record {
  text = concat t;
  kind = NoteKind.principal;
  label = [];
  now = 7;
  job = none;
  answer = none;
}

abbrev pub empty : Inbox
empty = create none none

abbrev pub one : Inbox
one = (put (said "stop") empty).1

abbrev pub read : Inbox
read = (drain one).1

pub Reach-read : Reach empty read
Reach-read = next (next start (put_one (said "stop"))) drain_all

Reach-IsValid_example : IsValid read
Reach-IsValid_example = Reach-IsValid none none Reach-read

requeue-drain_example :
    (requeue (put_all (said "b" ∷ []) (drain one).1)).1 ≡ put_all (said "b" ∷ []) one
unfolding put
requeue-drain_example = requeue-drain (said "b" ∷ []) one refl

held-restore_example : held (concat "n1") (restore read.delivered read) ≡ held (concat "n1") read
held-restore_example =
    held-restore (concat "n1") read.delivered read (Reach-IsValid none none Reach-read)
      (omega arith)

held-withdraw_example :
    held (concat "n1") (withdraw (concat "n1") one).1
      + (if (withdraw (concat "n1") one).0 && text_eq (concat "n1") (concat "n1") then 1 else 0)
    ≡ held (concat "n1") one
held-withdraw_example = held-withdraw (concat "n1") (concat "n1") one

abbrev spoken : Note
spoken = mint (said "stop") 1

abbrev pub short : Option Frame
short = some (λ note. some (concat "[me]"))

abbrev block : Text
block = mark ++ concat "[me]\nstop\n---- /inbox:27 ----"

render-spoken : render short (spoken ∷ []) ≡ some block
unfolding render mint trailer print
render-spoken = refl

split-render_example : split ascii_digit (concat "ok" ++ block) ≡ (concat "ok", block)
split-render_example =
    split-render ascii_digit ascii_digit-IsDigits short spoken [] (concat "ok") block render-spoken

split_halves_example :
    ((split ascii_digit (concat "ok" ++ block)).0 ++ (split ascii_digit (concat "ok" ++ block)).1
      ≡ concat "ok" ++ block)
    × (((split ascii_digit (concat "ok" ++ block)).1 ≡ [])
        ⊎ (starts_with mark (split ascii_digit (concat "ok" ++ block)).1 ≡ true))
split_halves_example = split_halves ascii_digit ascii_digit-IsDigits (concat "ok" ++ block)

-- A quoted mark with no trailer behind it leaves the text whole.
quoted_mark :
    split ascii_digit (concat "see\n\n---- inbox ----\n") ≡ (concat "see\n\n---- inbox ----\n", [])
unfolding split search_trailer match_trailer
quoted_mark = refl
