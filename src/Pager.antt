-- ===== src/Pager.antt =====
-- shell/pager.go: `less`, from its lines and the bytes of the terminal to what it draws.
pub mod Bounds
mod Witnesses
use websh.Base.{
  ℕ, zero, suc, ◌+◌, ◌-◌, ◌*◌, ◌/◌, ◌||◌, Option, none, some, List, [], ◌∷◌, ◌++◌, ◌==◌,
  if◌then◌else◌, Bytes, codes, ltb, length, take, get_elem?,
}
use websh.Base.Int.{ℤ, pos, negsuc}
use websh.Base.Decimal.{itoa}
use websh.Edit.Screen.{minus}
use websh.Edit.Keys.{read_byte, skip_byte}

-- What `runLess` shows: the name, the lines, and the terminal's columns and lines for text.
pub record Text : Type 0 where
  pub name : Bytes
  pub lines : List Bytes
  pub cols : ℕ
  pub page : ℕ

-- `page` for a terminal of `rows`
unfoldable pub text_of : Bytes → List Bytes → ℕ → ℕ → Text
text_of name lines cols rows = record {
  name = name;
  lines = lines;
  cols = cols;
  page = if ltb (rows - 1) 1 then 1 else rows - 1;
}

-- `maxTop`
unfoldable pub max_top : Text → ℕ
max_top t = if ltb (length t.lines) t.page then 0 else length t.lines - t.page

-- `clampTop()`
unfoldable pub clamp_top : ℕ → ℤ → ℕ
clamp_top last (pos n) = if ltb last n then last else n
clamp_top last (negsuc n) = 0

-- the line at `y`, cut at the last column, or the tilde behind the last line
abbrev row_text : ℕ → Option Bytes → Bytes
row_text cols none = codes "~"
row_text cols (some l) = if ltb cols (length l) then take cols l else l

unfoldable pub draw_rows : Text → ℕ → ℕ → Bytes
draw_rows t zero y = []
draw_rows t (suc n) y =
    row_text t.cols (get_elem? t.lines y) ++ b'\r' ∷ b'\n' ∷ draw_rows t n (suc y)

-- `minInt(a, b)`
unfoldable pub min_int : ℕ → ℕ → ℕ
min_int a b = if ltb a b then a else b

-- `pct`
unfoldable pub percent : Text → ℕ → ℕ
percent t top =
    let end = if ltb (length t.lines) (top + t.page) then length t.lines else top + t.page in
    if ltb 0 (length t.lines) then end * 100 / length t.lines else 100

-- `draw()`
unfoldable pub draw_page : Text → ℕ → Bytes
unfolding draw_rows itoa min_int percent
draw_page t top =
    0x1b ∷ codes "[H"
    ++ 0x1b ∷ codes "[2J"
    ++ draw_rows t t.page top
    ++ 0x1b ∷ codes "[7m "
    ++ t.name
    ++ codes "  "
    ++ itoa (top + 1)
    ++ codes "-"
    ++ itoa (min_int (top + t.page) (length t.lines))
    ++ codes "/"
    ++ itoa (length t.lines)
    ++ codes " ("
    ++ itoa (percent t top)
    ++ codes "%)  q:quit "
    ++ 0x1b ∷ codes "[0m"

-- What a key comes to: the pager returns, the loop goes on at once, or `top` is clamped and the
-- page drawn, with the input that is left.
pub data Move : Type 0 where
  leaves : Move
  ignores : Bytes → Move
  goes : ℤ → Bytes → Move

-- behind `ESC [` or `ESC O`
unfoldable pub page_key : Text → ℕ → ℕ → Bytes → Move
unfolding max_top minus
page_key t top b rest =
    if b == b'A'
    then goes (minus top 1) rest
    else if b == b'B'
    then goes (pos (top + 1)) rest
    else if b == b'5'
    then goes (minus top t.page) (skip_byte rest)
    else if b == b'6'
    then goes (pos (top + t.page)) (skip_byte rest)
    else if b == b'H'
    then goes (pos 0) rest
    else if b == b'F'
    then goes (pos (max_top t)) rest
    else goes (pos top) rest

-- the `switch` on a byte
unfoldable pub less_key : Text → ℕ → ℕ → Bytes → Move
unfolding max_top minus page_key
less_key t top c rest =
    let r = read_byte rest in
    let q = read_byte r.1 in
    if c == b'q' || c == 3
    then leaves
    else if c == b' ' || c == b'f'
    then goes (pos (top + t.page)) rest
    else if c == b'b'
    then goes (minus top t.page) rest
    else if c == b'j' || (c == b'\r' || c == b'\n')
    then goes (pos (top + 1)) rest
    else if c == b'k'
    then goes (minus top 1) rest
    else if c == b'g'
    then goes (pos 0) rest
    else if c == b'G'
    then goes (pos (max_top t)) rest
    else if c == 0x1b
    then (if r.0 == b'[' || r.0 == b'O' then page_key t top q.0 q.1 else ignores r.1)
    else ignores rest

-- The loop, on fuel: the last `top` and what was drawn, once it has returned.
unfoldable pub less_loop : ℕ → Text → ℕ → Bytes → Option (ℕ × Bytes)
unfolding clamp_top draw_page less_key max_top
less_loop fuel t top [] = some (top, [])
less_loop zero t top (c ∷ rest) = none
less_loop (suc fuel) t top (c ∷ rest) = elim (less_key t top c rest) [
  | leaves ↦ some (top, [])
  | ignores left ↦ less_loop fuel t top left
  | goes n left ↦
      let top' = clamp_top (max_top t) n in
      elim (less_loop fuel t top' left) [
        | none ↦ none
        | some q ↦ some (q.0, draw_page t top' ++ q.1)
      ]
]

-- `runLess`, behind the reading of its lines: every byte is a round, so the input is fuel enough.
unfoldable pub run_less : Text → Bytes → Option (ℕ × Bytes)
unfolding draw_page less_loop
run_less t input = elim (less_loop (length input) t 0 input) [
  | none ↦ none
  | some q ↦ some (q.0, draw_page t 0 ++ q.1)
]
