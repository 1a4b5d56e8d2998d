-- ===== src/Sed/Input.antt =====
-- shell/sed/sed.go: `input`, the lines of several readers with one line of lookahead.
pub mod Lines
pub mod Reading
use websh.Base.{
  ℕ, ◌+◌, Bool, true, false, Option, none, some, List, [], ◌∷◌, ◌==◌, if◌then◌else◌, Bytes,
}

-- A reader is the bytes that it gives before its end or its error.
pub record Input : Type 0 where
  pub readers : List Bytes
  pub cur : Option Bytes
  pub next : Bytes
  pub next_nl : Bool
  pub has_next : Bool
  pub line : ℕ

-- `ReadString('\n')`, with the newline cut off: the line, whether it had one, and what is left.
unfoldable pub split_line : Bytes → Bytes × Bool × Bytes
split_line [] = ([], false, [])
split_line (c ∷ s) =
    let later = split_line s in
    if c == b'\n' then ([], true, s) else (c ∷ later.0, later.1, later.2)

-- a line was read from the reader's bytes `s`
unfoldable pub found : Input → List Bytes → Bytes → Input
unfolding split_line
found in' readers s =
    let l = split_line s in
    record in' { readers = readers; cur = some l.2; next = l.0; next_nl = l.1; has_next = true }

-- the loop of `advance` where `cur` is nil
unfoldable pub open_next : Input → List Bytes → Input
unfolding found
open_next in' [] = record in' { readers = []; cur = none; has_next = false }
open_next in' ([] ∷ rs) = open_next in' rs
open_next in' ((c ∷ s) ∷ rs) = found in' rs (c ∷ s)

-- the loop of `advance`
unfoldable pub next_line : Input → Option Bytes → Input
unfolding found open_next
next_line in' none = open_next in' in'.readers
next_line in' (some []) = open_next in' in'.readers
next_line in' (some (c ∷ s)) = found in' in'.readers (c ∷ s)

-- `in.advance()`
unfoldable pub advance : Input → Input
unfolding next_line
advance in' = next_line in' in'.cur

abbrev pub unread_input : List Bytes → Input
unread_input rs = record {
  readers = rs;
  cur = none;
  next = [];
  next_nl = false;
  has_next = false;
  line = 0;
}

-- `newInput(rs)`
unfoldable pub new_input : List Bytes → Input
unfolding advance
new_input rs = advance (unread_input rs)

-- `in.read()`: the line, whether it ended in a newline, whether there was one.
unfoldable pub read : Input → (Bytes × Bool × Bool) × Input
unfolding advance
read in' =
    if in'.has_next
    then ((in'.next, in'.next_nl, true), record (advance in') { line = in'.line + 1 })
    else (([], false, false), in')
