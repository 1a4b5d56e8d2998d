-- ===== src/Edit/Buffer.antt =====
-- shell/edit.go: the text, the cursor in it, and the keys that change it.
use websh.Base.{
  trim_newline, split_lines, ℕ, zero, suc, ◌+◌, ◌-◌, Bool, true, false, Option, none, some, List,
  [], ◌∷◌, ◌++◌, if◌then◌else◌, Bytes, codes, equal, ltb, length, take, drop, set, map,
}
use websh.Base.Utf8.{encode, runes}

-- `message`, before it is printed
pub data Message : Type 0 where
  no_message no_filename : Message
  save_error : Bytes → Message
  saved : ℕ → Message

-- `editorState`, with what the file holds since it was saved
pub record EditorState : Type 0 where
  pub lines : List (List ℕ)
  pub cx : ℕ
  pub cy : ℕ
  pub top_y : ℕ
  pub left_x : ℕ
  pub dirty : Bool
  pub filename : Bytes
  pub message : Message
  pub file : Option Bytes

-- `afero.WriteFile` of a name and the bytes: the error's text, or none
pub record Files : Type 0 where
  pub write : Bytes → Bytes → Option Bytes

abbrev pub untitled : Bytes
untitled = codes "untitled"

-- the lines of a file that is opened
unfoldable pub load : Bytes → List (List ℕ)
unfolding runes split_lines trim_newline
load text = let r = split_lines (trim_newline text) in runes r.0 ∷ map runes r.1

unfoldable pub open_state : Bytes → Bytes → EditorState
unfolding load
open_state name text = record {
  lines = load text;
  cx = 0;
  cy = 0;
  top_y = 0;
  left_x = 0;
  dirty = false;
  filename = name;
  message = no_message;
  file = none;
}

-- what `save` writes
unfoldable pub content : List (List ℕ) → Bytes
unfolding encode
content [] = []
content (l ∷ ls) = encode l ++ b'\n' ∷ content ls

-- `save()`
unfoldable pub save : Files → EditorState → EditorState
unfolding content equal
save f s =
    if equal s.filename untitled
    then record s { message = no_filename }
    else elim (f.write s.filename (content s.lines)) [
      | some e ↦ record s { message = save_error e }
      | none ↦ record s {
        dirty = false;
        message = saved (length s.lines);
        file = some (content s.lines);
      }
    ]

-- `ed.lines[y]`; out of range Go panics
abbrev pub line_at : List (List ℕ) → ℕ → List ℕ
line_at [] y = []
line_at (l ∷ ls) zero = l
line_at (l ∷ ls) (suc y) = line_at ls y

-- `insertRune(r)`
unfoldable pub insert_rune : ℕ → EditorState → EditorState
insert_rune r s =
    let l = line_at s.lines s.cy in
    record s {
      lines = set s.lines s.cy (take s.cx l ++ r ∷ drop s.cx l);
      cx = suc s.cx;
      dirty = true;
    }

unfoldable pub insert_runes : List ℕ → EditorState → EditorState
unfolding insert_rune
insert_runes [] s = s
insert_runes (r ∷ rs) s = insert_runes rs (insert_rune r s)

-- the line of the cursor joined with the next one
unfoldable pub join_next : EditorState → List (List ℕ)
join_next s =
    let ls = set s.lines s.cy (line_at s.lines s.cy ++ line_at s.lines (s.cy + 1)) in
    take (s.cy + 1) ls ++ drop (s.cy + 2) ls

-- `case 0x0b`, Ctrl+K
unfoldable pub cut : EditorState → EditorState
unfolding join_next
cut s =
    let l = line_at s.lines s.cy in
    let ls =
      if ltb s.cx (length l)
      then set s.lines s.cy (take s.cx l)
      else if ltb (s.cy + 1) (length s.lines)
      then join_next s
      else s.lines in
    record s { lines = ls; dirty = true }

-- `case '\r', '\n'`
unfoldable pub enter : EditorState → EditorState
enter s =
    let l = line_at s.lines s.cy in
    let ls = set s.lines s.cy (take s.cx l) in
    record s {
      lines = take (s.cy + 1) ls ++ drop s.cx l ∷ drop (s.cy + 1) ls;
      cy = suc s.cy;
      cx = 0;
      dirty = true;
    }

-- `case 0x7f, '\b'`
unfoldable pub backspace : EditorState → EditorState
backspace s =
    let l = line_at s.lines s.cy in
    let previous = line_at s.lines (s.cy - 1) in
    let ls = set s.lines (s.cy - 1) (previous ++ l) in
    if ltb 0 s.cx
    then record s {
      lines = set s.lines s.cy (take (s.cx - 1) l ++ drop s.cx l);
      cx = s.cx - 1;
      dirty = true;
    }
    else if ltb 0 s.cy
    then record s {
      cx = length previous;
      lines = take s.cy ls ++ drop (s.cy + 1) ls;
      cy = s.cy - 1;
      dirty = true;
    }
    else s

-- `case '3'`, the key that deletes
unfoldable pub delete : EditorState → EditorState
unfolding join_next
delete s =
    let l = line_at s.lines s.cy in
    if ltb s.cx (length l)
    then record s { lines = set s.lines s.cy (take s.cx l ++ drop (s.cx + 1) l); dirty = true }
    else if ltb (s.cy + 1) (length s.lines)
    then record s { lines = join_next s; dirty = true }
    else s
