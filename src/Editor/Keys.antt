-- ===== src/Editor/Keys.antt =====
-- shell/editor.go: what each key does, and `Input`.
pub mod Drawn
pub mod History
pub mod Bounds
use websh.Base.{
  ℕ, zero, suc, ◌+◌, ◌-◌, Bool, false, none, some, List, [], ◌∷◌, ◌++◌, ◌==◌, if◌then◌else◌, ltb,
  length, get_elem?, take, drop, codes,
}
use websh.Editor.State.{
  echo, Terminal, Editor, emit, same_line, cell_at, at_edge, space_return, layout, change, move_to,
}

-- `e.insert(rs)`
unfoldable pub insert_inside : List ℕ → Editor → Editor
insert_inside rs e = record e {
  buf = take e.cursor e.buf ++ (rs ++ drop e.cursor e.buf);
  cursor = e.cursor + length rs;
}

unfoldable pub insert_end : Terminal → List ℕ → Editor → Editor
unfolding cell_at layout
insert_end t rs e =
    let e' = record e { buf = e.buf ++ rs; cursor = e.cursor + length rs } in
    elim t.prompt [
      | none ↦ emit (echo rs) e'
      | some prompt ↦
          emit
            (echo
              (if at_edge (cell_at (layout t prompt e') e'.cursor) then rs ++ space_return else rs))
            e'
    ]

unfoldable pub insert : Terminal → List ℕ → Editor → Editor
unfolding change insert_end insert_inside
insert t rs e =
    if ltb e.cursor (length e.buf) then change t (insert_inside rs) e else insert_end t rs e

-- Backspace, without and with a change of the line's middle
unfoldable pub remove_back : Editor → Editor
remove_back e = record e {
  buf = take (e.cursor - 1) e.buf ++ drop e.cursor e.buf;
  cursor = e.cursor - 1;
}

unfoldable pub backspace : Terminal → Editor → Editor
unfolding change remove_back
backspace t e = if e.cursor == 0 then e else elim t.prompt [
  | none ↦
      if e.cursor == length e.buf
      then emit (echo (0x08 ∷ b' ' ∷ 0x08 ∷ [])) (remove_back e)
      else change t remove_back e
  | some _ ↦ change t remove_back e
]

-- Ctrl+U, Ctrl+K, and the delete key
unfoldable pub kill_start : Editor → Editor
kill_start e = record e { buf = drop e.cursor e.buf; cursor = 0 }

unfoldable pub kill_end : Editor → Editor
kill_end e = record e { buf = take e.cursor e.buf }

unfoldable pub delete_here : Editor → Editor
delete_here e = record e { buf = take e.cursor e.buf ++ drop (e.cursor + 1) e.buf }

-- Ctrl+W: back over the blanks in front of `i`, then over the word in front of them
unfoldable pub is_blank_at : List ℕ → ℕ → Bool
is_blank_at buf i = elim (get_elem? buf i) [ none ↦ false | some r ↦ r == b' ' ]

unfoldable pub back_blanks : List ℕ → ℕ → ℕ
unfolding is_blank_at
back_blanks buf zero = zero
back_blanks buf (suc i) = let i' = back_blanks buf i in if is_blank_at buf i then i' else suc i

unfoldable pub back_word : List ℕ → ℕ → ℕ
unfolding is_blank_at
back_word buf zero = zero
back_word buf (suc i) = let i' = back_word buf i in if is_blank_at buf i then suc i else i'

unfoldable pub delete_word : Editor → Editor
unfolding back_blanks back_word
delete_word e =
    let i = back_word e.buf (back_blanks e.buf e.cursor) in
    record e { buf = take i e.buf ++ drop e.cursor e.buf; cursor = i }

-- the line `l` of the history
unfoldable pub recall : ℕ → List ℕ → Editor → Editor
recall i l e = record e { hist_idx = i; buf = l; cursor = length l }

-- `e.history[i]`; the index is below the length.
unfoldable pub entry : List (List ℕ) → ℕ → List ℕ
entry [] i = []
entry (l ∷ ls) zero = l
entry (l ∷ ls) (suc i) = entry ls i

-- the up key
unfoldable pub previous : Editor → Editor
unfolding recall entry
previous e =
    recall (e.hist_idx - 1) (entry e.history (e.hist_idx - 1))
      (if e.hist_idx == length e.history then record e { hist_save = e.buf } else e)

-- the down key
unfoldable pub following : Editor → Editor
unfolding recall entry
following e =
    recall (e.hist_idx + 1)
      (if e.hist_idx + 1 == length e.history then e.hist_save else entry e.history (e.hist_idx + 1))
      e

-- the right and left keys
unfoldable pub step_cursor : Terminal → ℕ → ℕ → Editor → Editor
unfolding move_to
step_cursor t i letter e = elim t.prompt [
  | none ↦ emit (echo (0x1b ∷ b'[' ∷ letter ∷ [])) (record e { cursor = i })
  | some _ ↦ move_to t i e
]

-- `e.handleCSI(seq)`
unfoldable pub handle_csi : Terminal → List ℕ → Editor → Editor
unfolding change delete_here following move_to previous same_line step_cursor
handle_csi t seq e =
    if same_line seq (codes "A")
    then (if ltb 0 e.hist_idx then change t previous e else e)
    else if same_line seq (codes "B")
    then (if ltb e.hist_idx (length e.history) then change t following e else e)
    else if same_line seq (codes "C")
    then (if ltb e.cursor (length e.buf) then step_cursor t (e.cursor + 1) b'C' e else e)
    else if same_line seq (codes "D")
    then (if ltb 0 e.cursor then step_cursor t (e.cursor - 1) b'D' e else e)
    else if same_line seq (codes "H")
    then move_to t 0 e
    else if same_line seq (codes "F")
    then move_to t (length e.buf) e
    else if same_line seq (codes "3~")
    then (if ltb e.cursor (length e.buf) then change t delete_here e else e)
    else e
