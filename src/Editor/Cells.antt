-- ===== src/Editor/Cells.antt =====
-- shell/cells.go: which runes of a prompt take cells, and where the cursor is behind them.
use websh.Base.{
  ℕ, ◌+◌, ◌-◌, Bool, false, not, ◌&&◌, ◌||◌, List, [], ◌∷◌, ◌++◌, ◌==◌, if◌then◌else◌, Bytes, ltb,
  leb, within, codes, one_of,
}
use websh.Base.Decimal.{itoa}

-- Where `promptCells` is in a prompt: in its text, between the marks, behind an ESC or the
-- intermediate runes behind one, in a control sequence, in a string, or in front of its last rune.
pub data Scan : Type 0 where
  text marked escape middle control string last : Scan

abbrev scan_middle : ℕ → Scan
scan_middle r = if within 0x20 0x2f r then middle else text

-- One rune of the loop of `promptCells`, or of `skipEscape` behind its ESC, with whether a
-- backslash follows: where the next rune is, and whether this one takes cells.
unfoldable pub scan : Scan → ℕ → Bool → Scan × Bool
scan text r ends =
    if r == 1
    then (marked, false)
    else if r == 0x1b
    then (escape, false)
    else (text, r == b'\n' || (leb 0x20 r && not (r == 0x7f)))
scan marked r ends = (if r == 2 then text else marked, false)
scan escape r ends = (
  if r == b'[' then control else if one_of (codes "]PX^_") r then string else scan_middle r,
  false,
)
scan middle r ends = (scan_middle r, false)
scan control r ends = (if within 0x40 0x7e r then text else control, false)
scan string r ends = (if r == 7 then text else if r == 0x1b && ends then last else string, false)
scan last r ends = (text, false)

abbrev next_is_backslash : List ℕ → Bool
next_is_backslash [] = false
next_is_backslash (r ∷ rs) = r == b'\\'

unfoldable pub cells_from : Scan → List ℕ → List ℕ
unfolding scan
cells_from m [] = []
cells_from m (r ∷ rs) =
    let s = scan m r (next_is_backslash rs) in
    let rest = cells_from s.0 rs in if s.1 then r ∷ rest else rest

-- `promptCells(p)`
unfoldable pub prompt_cells : List ℕ → List ℕ
unfolding cells_from
prompt_cells p = cells_from text p

-- `PromptText(p)`
unfoldable pub prompt_text : List ℕ → List ℕ
prompt_text [] = []
prompt_text (r ∷ rs) = let rest = prompt_text rs in if r == 1 || r == 2 then rest else r ∷ rest

-- `cell`
pub record Cell : Type 0 where
  pub row : ℕ
  pub col : ℕ

abbrev pub origin : Cell
origin = record { row = 0; col = 0 }

abbrev next_row : Cell → Cell
next_row p = record { row = p.row + 1; col = 0 }

abbrev room : Cell → ℕ → ℕ → Cell
room p w cols = if ltb 0 cols && ltb cols (p.col + w) then next_row p else p

abbrev wrap : Cell → ℕ → Cell
wrap p cols = if ltb 0 cols && leb cols p.col then next_row p else p

-- `advance(p, r, cols)`, where `width` is `runewidth.RuneWidth`
unfoldable pub advance : (ℕ → ℕ) → ℕ → Cell → ℕ → Cell
advance width cols p r =
    if r == b'\n'
    then next_row p
    else if width r == 0
    then p
    else (let q = room p (width r) cols in wrap (record q { col = q.col + width r }) cols)

-- the cursor behind each rune of a text that is written at `p`
unfoldable pub advance_all : (ℕ → ℕ) → ℕ → Cell → List ℕ → Cell
unfolding advance
advance_all width cols p [] = p
advance_all width cols p (r ∷ rs) = advance_all width cols (advance width cols p r) rs

-- ESC, `[`, a number and the letter of the movement
abbrev sequence : ℕ → ℕ → Bytes
sequence n letter = 0x1b ∷ b'[' ∷ (itoa n ++ letter ∷ [])

-- `moveCursor(from, to)`
unfoldable pub move_cursor : Cell → Cell → Bytes
unfolding itoa
move_cursor from to =
    (if ltb from.row to.row
      then sequence (to.row - from.row) b'B'
      else if ltb to.row from.row
      then sequence (from.row - to.row) b'A'
      else [])
    ++ (if to.col == from.col then [] else sequence (to.col + 1) b'G')
