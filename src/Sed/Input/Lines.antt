-- ===== src/Sed/Input/Lines.antt =====
-- What `input` hands out, against the lines of its readers.
use websh.Base.{
  ℕ, suc, ◌≡◌, refl, ap, ◌∙◌, Bool, true, false, Option, none, some, List, [], ◌∷◌, ◌++◌, arith,
  ◌==◌, if◌then◌else◌, Bool-cases, inl, inr, Bytes,
}
use websh.Sed.Input.{
  Input, split_line, found, open_next, next_line, advance, new_input, unread_input, read,
}

-- A line and whether it ended in a newline.
abbrev pub Line : Type 0
Line = Bytes × Bool

abbrev pub prepend : ℕ → List Line → List Line
prepend c [] = (c ∷ [], false) ∷ []
prepend c ((l, nl) ∷ ls) = (c ∷ l, nl) ∷ ls

-- The lines of a text: every newline ends one, and so does the end of the text.
abbrev pub text_lines : Bytes → List Line
text_lines [] = []
text_lines (c ∷ s) =
    let later = prepend c (text_lines s) in if c == b'\n' then ([], true) ∷ text_lines s else later

abbrev pub all_lines : List Bytes → List Line
all_lines [] = []
all_lines (r ∷ rs) = text_lines r ++ all_lines rs

-- The texts of lines, with the newlines that they had.
abbrev pub join_lines : List Line → Bytes
join_lines [] = []
join_lines ((l, nl) ∷ ls) = l ++ ((if nl then b'\n' ∷ [] else []) ++ join_lines ls)

join_lines-prepend : (c : ℕ) (ls : List Line) → join_lines (prepend c ls) ≡ c ∷ join_lines ls
join_lines-prepend c [] = refl
join_lines-prepend c ((l, nl) ∷ ls) = refl

pub join_lines-text_lines : (s : Bytes) → join_lines (text_lines s) ≡ s
join_lines-text_lines [] = refl
join_lines-text_lines (c ∷ s) = elim (Bool-cases (c == b'\n')) [
  | inl e ↦ rw e (ground (arith, join_lines-text_lines s))
  | inr e ↦ rw e (join_lines-prepend c (text_lines s) ∙ ap (◌∷◌ c) (join_lines-text_lines s))
]

text_lines-split_line :
    (c : ℕ) (s : Bytes)
    → let l = split_line (c ∷ s) in text_lines (c ∷ s) ≡ (l.0, l.1) ∷ text_lines l.2
unfolding split_line
text_lines-split_line c [] = ground arith
text_lines-split_line c (d ∷ s) = elim (Bool-cases (c == b'\n')) [
  | inl e ↦ rw e refl
  | inr e ↦ rw e (ap (prepend c) (text_lines-split_line d s))
]

abbrev of_cur : Option Bytes → Bytes
of_cur none = []
of_cur (some s) = s

-- The lines that an input has yet to read, the one in hand aside.
abbrev pub unread : Input → List Line
unread in' = text_lines (of_cur in'.cur) ++ all_lines in'.readers

abbrev in_hand : Input → List Line
in_hand in' = if in'.has_next then (in'.next, in'.next_nl) ∷ [] else []

-- All that is yet to be handed out.
abbrev pub remaining : Input → List Line
remaining in' = in_hand in' ++ (if in'.has_next then unread in' else [])

open_next-remaining : (in' : Input) (rs : List Bytes) → remaining (open_next in' rs) ≡ all_lines rs
unfolding open_next found
open_next-remaining in' [] = refl
open_next-remaining in' ([] ∷ rs) = open_next-remaining in' rs
open_next-remaining in' ((c ∷ s) ∷ rs) = rw text_lines-split_line

open_next-line : (in' : Input) (rs : List Bytes) → (open_next in' rs).line ≡ in'.line
unfolding open_next found
open_next-line in' [] = refl
open_next-line in' ([] ∷ rs) = open_next-line in' rs
open_next-line in' ((c ∷ s) ∷ rs) = refl

next_line-remaining :
    (in' : Input) (cur : Option Bytes)
    → remaining (next_line in' cur) ≡ text_lines (of_cur cur) ++ all_lines in'.readers
unfolding next_line found
next_line-remaining in' none = open_next-remaining in' in'.readers
next_line-remaining in' (some []) = open_next-remaining in' in'.readers
next_line-remaining in' (some (c ∷ s)) = rw text_lines-split_line

next_line-line : (in' : Input) (cur : Option Bytes) → (next_line in' cur).line ≡ in'.line
unfolding next_line found
next_line-line in' none = open_next-line in' in'.readers
next_line-line in' (some []) = open_next-line in' in'.readers
next_line-line in' (some (c ∷ s)) = refl

pub new_input-remaining : (rs : List Bytes) → remaining (new_input rs) ≡ all_lines rs
unfolding new_input advance
new_input-remaining rs = next_line-remaining (unread_input rs) none

pub new_input-line : (rs : List Bytes) → (new_input rs).line ≡ 0
unfolding new_input advance
new_input-line rs = next_line-line (unread_input rs) none

-- With a line in hand, `read` hands it out and counts it.
pub read-has_next :
    (in' : Input) (l : Bytes) (nl : Bool) (ls : List Line)
    → remaining in' ≡ (l, nl) ∷ ls
    → ((read in').0 ≡ (l, nl, true))
      × (remaining (read in').1 ≡ ls)
      × ((read in').1.line ≡ suc in'.line)
unfolding read advance
read-has_next in' l nl ls h =
    let e = next_line-remaining in' in'.cur in
    let k = next_line-line in' in'.cur in
    elim (Bool-cases in'.has_next) [
      | inl b ↦ (ground arith, ground arith, ground arith)
      | inr b ↦ absurd (ground arith)
    ]
