-- ===== src/Editor/State.antt =====
-- shell/editor.go: `LineEditor`, and how it draws its line.
pub mod Columns
use websh.Base.{
  ℕ, zero, suc, ◌+◌, ◌-◌, Bool, true, false, ◌&&◌, Option, none, some, List, [], ◌∷◌, ◌++◌, ◌==◌,
  if◌then◌else◌, Bytes, ltb, length,
}
use websh.Editor.Cells.{Cell, origin, prompt_cells, prompt_text, advance, advance_all, move_cursor}

-- What the callbacks are called with; a callback that is nil is one that does nothing.
pub data Event : Type 0 where
  echo : List ℕ → Event
  submit : List ℕ → Event
  interrupt end_of_input clear_screen : Event
  repaint : List ℕ → ℕ → Event

-- The terminal: `Prompt`, `Cols` (0 where it is nil or not above 0), `Complete`, and
-- `runewidth.RuneWidth`. A prompt is the list of its runes.
pub record Terminal : Type 0 where
  pub prompt : Option (List ℕ)
  pub cols : ℕ
  pub complete : Option (Bytes → Bool → List Bytes)
  pub width : ℕ → ℕ

-- `esc`: not in an escape sequence, behind an ESC, in a control sequence
pub data Esc : Type 0 where
  outside behind_esc inside : Esc

-- `LineEditor`, with the calls of its callbacks so far; lines are lists of runes.
pub record Editor : Type 0 where
  pub buf : List ℕ
  pub cursor : ℕ
  pub history : List (List ℕ)
  pub hist_idx : ℕ
  pub hist_save : List ℕ
  pub esc : Esc
  pub csi : List ℕ
  pub settled : Bool
  pub events : List Event

abbrev pub emit : Event → Editor → Editor
emit a e = record e { events = e.events ++ a ∷ [] }

-- `e.Reset()`
unfoldable pub reset : Editor → Editor
reset e = record e {
  buf = [];
  cursor = 0;
  hist_idx = length e.history;
  hist_save = [];
  settled = false;
}

-- the last line of the history
unfoldable pub last_entry : List (List ℕ) → Option (List ℕ)
last_entry [] = none
last_entry (l ∷ []) = some l
last_entry (l ∷ m ∷ ls) = last_entry (m ∷ ls)

unfoldable pub same_line : List ℕ → List ℕ → Bool
same_line [] t = elim t [ [] ↦ true | _ ∷ _ ↦ false ]
same_line (c ∷ s) [] = false
same_line (c ∷ s) (d ∷ t) = let rest = same_line s t in c == d && rest

abbrev is_last_entry : List (List ℕ) → List ℕ → Bool
is_last_entry history l = elim (last_entry history) [ none ↦ false | some m ↦ same_line m l ]

-- `e.AddHistory(line)`
unfoldable pub add_history : Editor → List ℕ → Editor
unfolding last_entry same_line
add_history e [] = e
add_history e (c ∷ l) =
    if is_last_entry e.history (c ∷ l)
    then e
    else record e { history = e.history ++ (c ∷ l) ∷ []; hist_idx = length e.history + 1 }

-- `e.ClearHistory()`
unfoldable pub clear_history : Editor → Editor
clear_history e = record e { history = []; hist_idx = 0; hist_save = [] }

-- where the cursor is before each rune of the line that is written at `p`, and behind the last
unfoldable pub cells_of : (ℕ → ℕ) → ℕ → Cell → List ℕ → List Cell
unfolding advance
cells_of width cols p [] = p ∷ []
cells_of width cols p (r ∷ rs) = p ∷ cells_of width cols (advance width cols p r) rs

-- `e.layout(prompt, cols)`
unfoldable pub layout : Terminal → List ℕ → Editor → List Cell
unfolding advance_all cells_of prompt_cells
layout t prompt e =
    cells_of t.width t.cols (advance_all t.width t.cols origin (prompt_cells prompt)) e.buf

-- `at[i]`; the layout of a line has a cell for every place in it.
unfoldable pub cell_at : List Cell → ℕ → Cell
cell_at [] i = origin
cell_at (p ∷ ps) zero = p
cell_at (p ∷ ps) (suc i) = cell_at ps i

abbrev pub at_edge : Cell → Bool
at_edge p = p.col == 0 && ltb 0 p.row

abbrev pub space_return : List ℕ
space_return = b' ' ∷ b'\r' ∷ []

-- `e.settle()`
unfoldable pub settle : Terminal → Editor → Editor
unfolding cell_at layout
settle t e = elim t.prompt [
  | none ↦ e
  | some prompt ↦
      if e.settled
      then e
      else (let e' = record e { settled = true } in
          if at_edge (cell_at (layout t prompt e) e.cursor)
          then emit (echo space_return) e'
          else e')
]

-- `e.tail(prompt, cols)`
unfoldable pub tail : Terminal → List ℕ → Editor → List ℕ
unfolding cell_at layout move_cursor
tail t prompt e =
    let at = layout t prompt e in
    let end = cell_at at (length e.buf) in
    (e.buf ++ (if at_edge end then space_return else [])) ++ move_cursor end (cell_at at e.cursor)

-- `e.redraw()`
abbrev pub redraw : Editor → Editor
redraw e = emit (repaint e.buf (length e.buf - e.cursor)) e

-- `e.refresh(from)`, with the prompt
unfoldable pub refresh : Terminal → List ℕ → Cell → Editor → Editor
unfolding move_cursor prompt_text tail
refresh t prompt from e =
    emit
      (echo (
        move_cursor from (record { row = 0; col = from.col })
        ++ (b'\r' ∷ 0x1b ∷ b'[' ∷ b'J' ∷ [])
        ++ prompt_text prompt
        ++ tail t prompt e))
      (record e { settled = true })

-- `e.Redisplay()`
unfoldable pub redisplay : Terminal → Editor → Editor
unfolding tail
redisplay t e = elim t.prompt [
  | none ↦ redraw e
  | some prompt ↦ emit (echo (tail t prompt e)) (record e { settled = true })
]

-- `e.change(f)`: what `f` makes of the line is drawn from where the cursor was.
unfoldable pub change : Terminal → (Editor → Editor) → Editor → Editor
unfolding cell_at layout refresh
change t f e = elim t.prompt [
  | none ↦ redraw (f e)
  | some prompt ↦ refresh t prompt (cell_at (layout t prompt e) e.cursor) (f e)
]

-- `e.Refresh()`
unfoldable pub refresh_all : Terminal → Editor → Editor
unfolding change
refresh_all t e = change t (λ e. e) e

-- `e.moveTo(i)`
unfoldable pub move_to : Terminal → ℕ → Editor → Editor
unfolding cell_at layout move_cursor
move_to t i e = elim t.prompt [
  | none ↦ redraw (record e { cursor = i })
  | some prompt ↦
      let at = layout t prompt e in
      let s = move_cursor (cell_at at e.cursor) (cell_at at i) in
      let e' = record e { cursor = i } in elim s [ [] ↦ e' | c ∷ s' ↦ emit (echo (c ∷ s')) e' ]
]
