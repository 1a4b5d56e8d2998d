-- ===== src/Edit/Witnesses.antt =====
-- The theorems on the text editor at concrete inputs, and some runs.
use websh.Base.{
  ◌≡◌, refl, ◌++◌, false, ends_in, none, some, Option, [], ◌∷◌, Bytes, codes, drop, arith,
}
use websh.Edit.Buffer.{
  EditorState, Files, no_message, insert_rune, enter, backspace, delete, load, content,
}
use websh.Edit.Screen.{size_of}
use websh.Edit.Keys.{run_edit}
use websh.Edit.Shown.{IsShown}
use websh.Edit.Returns.{run_edit-IsShown}
use websh.Base.Utf8.{encode, runes}
use websh.Edit.Saved.{load-content}
use websh.Edit.Text.{view, without_last, keys-view}

-- Every write goes through.
abbrev disk : Files
disk = record { write = λ name s. none }

-- The cursor is at the start of the second line.
abbrev two_lines : EditorState
two_lines = record {
  lines = codes "ab" ∷ codes "cd" ∷ [];
  cx = 0;
  cy = 1;
  top_y = 0;
  left_x = 0;
  dirty = false;
  filename = codes "notes";
  message = no_message;
  file = none;
}

keys-view_example :
    (view (insert_rune b'x' two_lines) ≡ ((view two_lines).0 ++ b'x' ∷ [], (view two_lines).1))
    × (view (enter two_lines) ≡ ((view two_lines).0 ++ b'\n' ∷ [], (view two_lines).1))
    × (view (backspace two_lines) ≡ (without_last (view two_lines).0, (view two_lines).1))
    × (view (delete two_lines) ≡ ((view two_lines).0, drop 1 (view two_lines).1))
keys-view_example = keys-view b'x' two_lines (omega arith) (omega arith)

-- Enter, a letter, an arrow, the key that deletes, and Ctrl+S.
abbrev typed_keys : Bytes
typed_keys = b'\r' ∷ b'x' ∷ 0x1b ∷ codes "[C" ++ (0x1b ∷ codes "[3~" ++ 0x13 ∷ [])

run_edit-IsShown_example :
    (q : EditorState × Bytes) × (run_edit disk
        (size_of 10 5)
        (codes "notes")
        (codes "ab")
        typed_keys
      ≡ some q)
    × IsShown (size_of 10 5) q.0
run_edit-IsShown_example =
    run_edit-IsShown disk 10 5 (codes "notes") (codes "ab") typed_keys (omega arith)

file_of : Option (EditorState × Bytes) → Option Bytes
file_of none = none
file_of (some q) = q.0.file

saved_text :
    file_of (run_edit disk (size_of 10 5) (codes "notes") (codes "ab") typed_keys)
    ≡ some (b'\n' ∷ codes "xa" ++ b'\n' ∷ [])
unfolding run_edit file_of ends_in
saved_text = refl

load-content_example :
    load (content (codes "a~" ∷ [] ∷ (0xe9 ∷ b'b' ∷ []) ∷ []))
    ≡ codes "a~" ∷ [] ∷ (0xe9 ∷ b'b' ∷ []) ∷ []
unfolding encode runes
load-content_example =
    load-content (codes "a~") ([] ∷ (0xe9 ∷ b'b' ∷ []) ∷ [])
      (refl, (refl, (refl, tt)), (refl, tt, (refl, (refl, (refl, (refl, tt))), tt)))
