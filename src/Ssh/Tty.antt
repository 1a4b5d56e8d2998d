-- ===== src/Ssh/Tty.antt =====
-- shell/ssh/tty.go: the terminal that the prompts talk to.
pub mod Answers
use websh.Base.{
  ℕ, zero, suc, ◌+◌, ◌||◌, Bool, true, false, Option, none, some, List, [], ◌∷◌, ◌++◌, ◌==◌,
  if◌then◌else◌, Bytes, codes, equal, ltb,
}
use websh.Base.Result.{Fault, plain, Result, ok, err}
use websh.Ssh.Library.{Library}

-- How the bytes of a reader end.
pub data End : Type 0 where
  eof : End
  failed : Fault → End

-- What is left to read, and what was written. Reads without a byte or an error are left out.
pub record Tty : Type 0 where
  pub input : Bytes
  pub end_of : End
  pub output : Bytes

-- `strings.ReplaceAll(s, "\n", "\r\n")`
unfoldable pub with_returns : Bytes → Bytes
with_returns [] = []
with_returns (c ∷ s) =
    let rest = with_returns s in if c == b'\n' then b'\r' ∷ b'\n' ∷ rest else c ∷ rest

-- `t.print(s)`
unfoldable pub print : Bytes → Tty → Tty
unfolding with_returns
print s t = record t { output = t.output ++ with_returns s }

abbrev end_fault : End → Fault
end_fault eof = plain "EOF"
end_fault (failed e) = e

-- the line without its last byte
unfoldable pub erase_last : Bytes → Bytes
erase_last [] = []
erase_last (c ∷ []) = []
erase_last (c ∷ d ∷ s) = c ∷ erase_last (d ∷ s)

abbrev backspaces : Bytes
backspaces = 0x08 ∷ b' ' ∷ 0x08 ∷ []

-- `strings.Repeat("\b \b", len(line))`
unfoldable pub repeat_erase : Bytes → Bytes
repeat_erase [] = []
repeat_erase (c ∷ s) = backspaces ++ repeat_erase s

abbrev echoed : Bool → Bytes → Bytes → Bytes
echoed echo s output = if echo then output ++ with_returns s else output

-- a read without a byte: the end of the input
unfoldable pub line_at_end : Bytes → End → Result Bytes
line_at_end [] e = err (end_fault e)
line_at_end (c ∷ line) eof = ok (c ∷ line)
line_at_end (c ∷ line) (failed e) = err e

-- How a byte continues the line, or ends it: with a text to print, and a result.
pub data Typed : Type 0 where
  more : Bytes → Bytes → Typed
  over : Bytes → Result Bytes → Typed

abbrev shown : Bool → Bytes → Bytes
shown echo s = if echo then s else []

-- the `switch c := b[0]; c` of `readLine`, for the line read so far
unfoldable pub type_byte : Bool → Bytes → ℕ → Typed
unfolding erase_last repeat_erase with_returns
type_byte echo line c =
    if c == b'\r' || c == b'\n'
    then over (b'\r' ∷ b'\n' ∷ []) (ok line)
    else if c == 0x03
    then over (b'^' ∷ b'C' ∷ b'\r' ∷ b'\n' ∷ []) (err (plain "interrupted"))
    else if c == 0x04
    then (elim line [
      | [] ↦ over (b'\r' ∷ b'\n' ∷ []) (err (plain "EOF"))
      | d ∷ l ↦ more [] (d ∷ l)
    ])
    else if c == 0x7f || c == 0x08
    then (elim line [ [] ↦ more [] [] | d ∷ l ↦ more (shown echo backspaces) (erase_last (d ∷ l)) ])
    else if c == 0x15
    then more (shown echo (repeat_erase line)) []
    else if ltb c 0x20
    then more [] line
    else more (shown echo (c ∷ [])) (line ++ c ∷ [])

-- the loop of `readLine` over the bytes that are left
unfoldable pub read_loop : Bool → Bytes → Bytes → End → Bytes → Result Bytes × Tty
unfolding line_at_end type_byte
read_loop echo line [] e out =
    (line_at_end line e, record { input = []; end_of = e; output = out ++ b'\r' ∷ b'\n' ∷ [] })
read_loop echo line (c ∷ input) e out = elim (type_byte echo line c) [
  | more s line' ↦ read_loop echo line' input e (out ++ s)
  | over s r ↦ (r, record { input = input; end_of = e; output = out ++ s })
]

-- `t.readLine(prompt, echo)`
unfoldable pub read_line : Bytes → Bool → Tty → Result Bytes × Tty
unfolding print read_loop
read_line prompt echo t = let t' = print prompt t in read_loop echo [] t'.input t'.end_of t'.output

-- `t.password(prompt)`
unfoldable pub password : Bytes → Tty → Result Bytes × Tty
unfolding read_line
password prompt t = read_line prompt false t

-- what `yesNo` makes of a line: an answer, or none
unfoldable pub answer_of : Library → Bytes → Option Bool
unfolding equal
answer_of l line =
    let s = l.to_lower (l.trim_space line) in
    if equal s (codes "yes") then some true else if equal s (codes "no") then some false else none

-- `t.yesNo(prompt)`, with fuel for the questions; `none` means that it ran out.
unfoldable pub yes_no : ℕ → Library → Bytes → Tty → Option (Result Bool × Tty)
unfolding answer_of read_line
yes_no zero l prompt t = none
yes_no (suc fuel) l prompt t =
    let r = read_line prompt true t in
    elim r.0 [
      | err e ↦ some (err e, r.1)
      | ok line ↦ elim (answer_of l line) [
        | some b ↦ some (ok b, r.1)
        | none ↦ yes_no fuel l (codes "Please type 'yes' or 'no': ") r.1
      ]
    ]
