-- ===== src/Edit/Keys.antt =====
-- shell/edit.go: what each key does, and the loop that reads them.
use websh.Base.{
  ℕ, zero, suc, ◌+◌, ◌||◌, [], ◌∷◌, ◌++◌, ◌==◌, if◌then◌else◌, Bytes, leb, length, take, drop,
  Option, none, some,
}
use websh.Base.Int.{ℤ, pos}
use websh.Base.Utf8.{runes}
use websh.Edit.Buffer.{
  EditorState, Files, no_message, insert_rune, insert_runes, save, cut, enter, backspace, delete,
  line_at, open_state,
}
use websh.Edit.Screen.{Size, minus, clamp, draw}

-- What a key comes to: the editor returns, the loop goes on at once, or `clamp` and `draw` come
-- first, with `cy` and `cx` as the key has left them and the input that is left.
pub data Outcome : Type 0 where
  quits : EditorState → Outcome
  skips : EditorState → Bytes → Outcome
  draws : EditorState → ℤ → ℤ → Bytes → Outcome

-- `readByte(r)`, with the input behind it
abbrev pub read_byte : Bytes → ℕ × Bytes
read_byte [] = (0, [])
read_byte (c ∷ s) = (c, s)

abbrev pub skip_byte : Bytes → Bytes
skip_byte s = (read_byte s).1

-- a key that leaves the cursor where the state has it
abbrev pub stays : EditorState → Bytes → Outcome
stays s rest = draws s (pos s.cy) (pos s.cx) rest

-- behind `ESC [` or `ESC O`
unfoldable pub arrow_key : Size → EditorState → ℕ → Bytes → Outcome
unfolding delete minus
arrow_key z s b rest =
    let y = pos s.cy in
    let x = pos s.cx in
    if b == b'A'
    then draws s (minus s.cy 1) x rest
    else if b == b'B'
    then draws s (pos (s.cy + 1)) x rest
    else if b == b'C'
    then draws s y (pos (s.cx + 1)) rest
    else if b == b'D'
    then draws s y (minus s.cx 1) rest
    else if b == b'H'
    then draws s y (pos 0) rest
    else if b == b'F'
    then draws s y (pos (length (line_at s.lines s.cy))) rest
    else if b == b'3'
    then stays (delete s) (skip_byte rest)
    else if b == b'5'
    then draws s (minus s.cy z.text_rows) x (skip_byte rest)
    else if b == b'6'
    then draws s (pos (s.cy + z.text_rows)) x (skip_byte rest)
    else stays s rest

-- `case 0x1b`
unfoldable pub escape_key : Size → EditorState → Bytes → Outcome
unfolding arrow_key
escape_key z s rest =
    let r = read_byte rest in
    let q = read_byte r.1 in
    if r.0 == b'[' || r.0 == b'O' then arrow_key z s q.0 q.1 else skips s r.1

-- how many bytes follow the first byte of a sequence
abbrev pub more_bytes : ℕ → ℕ
more_bytes c = if leb 0xF0 c then 3 else if leb 0xE0 c then 2 else if leb 0xC0 c then 1 else 0

-- the `switch` on a byte, behind `ed.message = ""`
unfoldable pub key : Files → Size → EditorState → ℕ → Bytes → Outcome
unfolding backspace cut enter escape_key insert_rune insert_runes runes save
key f z s c rest =
    if c == 0x11
    then quits (if s.dirty then save f s else s)
    else if c == 0x13
    then stays (save f s) rest
    else if c == 3
    then quits s
    else if c == 0x0b
    then stays (cut s) rest
    else if c == b'\r' || c == b'\n'
    then stays (enter s) rest
    else if c == 0x7f || c == 8
    then stays (backspace s) rest
    else if c == b'\t'
    then stays (insert_rune b'\t' s) rest
    else if c == 0x1b
    then escape_key z s rest
    else if leb 32 c
    then stays (insert_runes (runes (c ∷ take (more_bytes c) rest)) s) (drop (more_bytes c) rest)
    else stays s rest

-- the end of a round: the state, what is drawn and the input that is left, if the loop goes on
pub record Round : Type 0 where
  pub state : EditorState
  pub drawn : Bytes
  pub input : Option Bytes

unfoldable pub finish : Size → Outcome → Round
unfolding clamp draw
finish z (quits s) = record { state = s; drawn = []; input = none }
finish z (skips s rest) = record { state = s; drawn = []; input = some rest }
finish z (draws s y x rest) =
    let s' = clamp z y x s in record { state = s'; drawn = draw z s'; input = some rest }

-- one round of the loop of `runEdit`
unfoldable pub round : Files → Size → EditorState → ℕ → Bytes → Round
unfolding finish key
round f z s c rest = finish z (key f z (record s { message = no_message }) c rest)

-- The loop, on fuel: the last state and what was drawn, once it has returned.
unfoldable pub edit_loop : ℕ → Files → Size → EditorState → Bytes → Option (EditorState × Bytes)
unfolding round
edit_loop fuel f z s [] = some (s, [])
edit_loop zero f z s (c ∷ rest) = none
edit_loop (suc fuel) f z s (c ∷ rest) =
    let r = round f z s c rest in
    elim r.input [
      | none ↦ some (r.state, r.drawn)
      | some left ↦ elim (edit_loop fuel f z r.state left) [
        | none ↦ none
        | some q ↦ some (q.0, r.drawn ++ q.1)
      ]
    ]

-- `runEdit` for a name and what the file holds: every byte is a round, so the input is fuel enough.
unfoldable pub run_edit : Files → Size → Bytes → Bytes → Bytes → Option (EditorState × Bytes)
unfolding clamp draw edit_loop open_state
run_edit f z name text input =
    let s = clamp z (pos 0) (pos 0) (open_state name text) in
    elim (edit_loop (length input) f z s input) [
      | none ↦ none
      | some q ↦ some (q.0, draw z s ++ q.1)
    ]
