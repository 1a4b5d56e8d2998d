-- ===== src/Edit/Screen.antt =====
-- shell/edit.go: the bounds of the cursor and of the screen, and what is drawn.
use websh.Base.{
  ℕ, zero, suc, ◌+◌, ◌-◌, if◌then◌else◌, [], ◌∷◌, ◌++◌, Bytes, codes, ltb, leb, length, take, slice,
}
use websh.Base.Int.{ℤ, pos, negsuc}
use websh.Base.Utf8.{encode}
use websh.Base.Decimal.{itoa}
use websh.Edit.Buffer.{EditorState, Message, no_message, no_filename, save_error, saved, line_at}

-- `cols` and `textRows`
pub record Size : Type 0 where
  pub cols : ℕ
  pub text_rows : ℕ

-- `textRows` for a terminal
unfoldable pub size_of : ℕ → ℕ → Size
size_of cols rows = record { cols = cols; text_rows = if ltb (rows - 1) 1 then 1 else rows - 1 }

-- `n - k` for an `int`
unfoldable pub minus : ℕ → ℕ → ℤ
minus n k = if leb k n then pos (n - k) else negsuc (k - n - 1)

-- `if n < 0 { n = 0 }`
abbrev pub at_least_zero : ℤ → ℕ
at_least_zero (pos n) = n
at_least_zero (negsuc n) = 0

abbrev pub clamp_to : ℕ → ℤ → ℕ
clamp_to last n = if ltb last (at_least_zero n) then last else at_least_zero n

-- the first line or column shown, for one that has to be seen and the number that are
unfoldable pub scroll : ℕ → ℕ → ℕ → ℕ
scroll size first n =
    let up = if ltb n first then n else first in if leb (up + size) n then n + 1 - size else up

-- `clamp()`, where the keys have left `cy` and `cx`
unfoldable pub clamp : Size → ℤ → ℤ → EditorState → EditorState
unfolding scroll
clamp z y x s =
    let cy = clamp_to (length s.lines - 1) y in
    let cx = clamp_to (length (line_at s.lines cy)) x in
    record s {
      cy = cy;
      cx = cx;
      top_y = scroll z.text_rows s.top_y cy;
      left_x = scroll z.cols s.left_x cx;
    }

abbrev escape : Bytes → Bytes
escape s = 0x1b ∷ s

-- a line of the text, or the tilde behind the last one
unfoldable pub draw_line : Size → EditorState → ℕ → Bytes
unfolding encode
draw_line z s y =
    let l = line_at s.lines y in
    let end = if ltb (length l) (s.left_x + z.cols) then length l else s.left_x + z.cols in
    if ltb y (length s.lines)
    then (if ltb s.left_x (length l) then encode (slice s.left_x end l) else [])
    else escape (codes "[2m~") ++ escape (codes "[0m")

unfoldable pub draw_lines : Size → EditorState → ℕ → ℕ → Bytes
unfolding draw_line
draw_lines z s zero y = []
draw_lines z s (suc n) y = draw_line z s y ++ b'\r' ∷ b'\n' ∷ draw_lines z s n (suc y)

-- the text of `message`
unfoldable pub message_text : Message → Bytes
unfolding itoa
message_text no_message = []
message_text no_filename = codes "no filename (start over with: edit <name>)"
message_text (save_error e) = codes "save error: " ++ e
message_text (saved n) = codes "saved " ++ itoa n ++ codes " lines"

abbrev with_message : Bytes → Bytes
with_message [] = []
with_message (c ∷ s) = 0xC2 ∷ 0xB7 ∷ b' ' ∷ c ∷ s

unfoldable pub status : Size → EditorState → Bytes
unfolding itoa message_text
status z s =
    let line =
      b' ' ∷ s.filename
      ++ (if s.dirty then codes " [+]" else [])
      ++ codes "  "
      ++ itoa (s.cy + 1)
      ++ codes ":"
      ++ itoa (s.cx + 1)
      ++ codes "  ^S save ^Q quit "
      ++ with_message (message_text s.message) in
    if ltb z.cols (length line) then take z.cols line else line

-- `draw()`
unfoldable pub draw : Size → EditorState → Bytes
unfolding draw_lines itoa status
draw z s =
    escape (codes "[H")
    ++ escape (codes "[2J")
    ++ draw_lines z s z.text_rows s.top_y
    ++ escape (codes "[7m")
    ++ status z s
    ++ escape (codes "[0m")
    ++ escape (codes "[")
    ++ itoa (s.cy + 1 - s.top_y)
    ++ codes ";"
    ++ itoa (s.cx + 1 - s.left_x)
    ++ codes "H"
