-- ===== src/Web.antt =====
-- web/session.go: the terminal of a session while a command runs: what is echoed and handed over of
-- the keys in cooked mode, and the writer of the command's output.
pub mod Writes
pub mod Characters
pub mod Lines
pub mod Parted
mod Witnesses
use websh.Base.{
  ℕ, zero, suc, ◌+◌, ◌-◌, Bool, true, false, not, ◌&&◌, ◌||◌, Option, none, some, List, [], ◌∷◌,
  ◌++◌, ◌==◌, if◌then◌else◌, Bytes, codes, equal, length, take, drop, ltb, leb,
}
use websh.Base.Utf8.{runes, encode, encode_rune}
use websh.Base.Paths.{reverse_onto}

-- What goes into the queue of the running command: bytes, or an interrupt.
pub data InItem : Type 0 where
  typed : Bytes → InItem
  interrupt : InItem

-- the line that is held, what the command was handed, and what is echoed
pub record Cooked : Type 0 where
  pub line : List ℕ
  pub items : List InItem
  pub echo : Bytes

-- `writeStdin`: nothing is no item
unfoldable pub write_stdin : List InItem → Bytes → List InItem
write_stdin items [] = items
write_stdin items (b ∷ s) = items ++ typed (b ∷ s) ∷ []

-- one rune of `echoCtl`
unfoldable pub echo_rune : ℕ → Bytes
unfolding encode_rune
echo_rune r =
    if r == b'\r' || r == b'\n'
    then b'\r' ∷ b'\n' ∷ []
    else if r == b'\t' || r == 8 || r == 0x7f
    then encode_rune r
    else if ltb r b' '
    then b'^' ∷ encode_rune (r + b'@')
    else encode_rune r

unfoldable pub echo_runes : List ℕ → Bytes
unfolding echo_rune
echo_runes [] = []
echo_runes (r ∷ rs) = echo_rune r ++ echo_runes rs

-- `echoCtl`
unfoldable pub echo_ctl : Bytes → Bytes
unfolding echo_runes runes
echo_ctl s = echo_runes (runes s)

-- `strings.Repeat("\b \b", n)`
unfoldable pub rubouts : ℕ → Bytes
rubouts zero = []
rubouts (suc n) = 8 ∷ b' ' ∷ 8 ∷ rubouts n

-- a line from its end, without its last word and the spaces behind that
unfoldable pub skip_word : List ℕ → List ℕ
skip_word [] = []
skip_word (r ∷ rs) = if r == b' ' then r ∷ rs else skip_word rs

unfoldable pub skip_spaces : List ℕ → List ℕ
unfolding skip_word
skip_spaces [] = []
skip_spaces (r ∷ rs) = let later = skip_spaces rs in if r == b' ' then later else skip_word (r ∷ rs)

unfoldable pub erase_word : List ℕ → List ℕ
unfolding reverse_onto skip_spaces
erase_word line = reverse_onto (skip_spaces (reverse_onto line [])) []

abbrev pub echoes : Cooked → Bytes → Cooked
echoes c s = record c { echo = c.echo ++ s }

abbrev erase_one : Cooked → Cooked
erase_one c =
    if length c.line == 0
    then c
    else echoes (record c { line = take (length c.line - 1) c.line }) (8 ∷ b' ' ∷ 8 ∷ [])

-- one rune of `cookedInput`
unfoldable pub cooked_rune : Cooked → ℕ → Cooked
unfolding echo_ctl encode encode_rune erase_word rubouts write_stdin
cooked_rune c r =
    if r == b'\r' || r == b'\n'
    then record {
      line = [];
      items = write_stdin c.items (encode c.line ++ b'\n' ∷ []);
      echo = c.echo ++ b'\r' ∷ b'\n' ∷ [];
    }
    else if r == 0x7f || r == 8
    then erase_one c
    else if r == 0x15
    then echoes (record c { line = [] }) (rubouts (length c.line))
    else if r == 0x17
    then echoes (record c { line = erase_word c.line })
        (rubouts (length c.line - length (erase_word c.line)))
    else if r == 4
    then (if length c.line == 0
        then record c { items = c.items ++ interrupt ∷ [] }
        else record c { line = []; items = write_stdin c.items (encode c.line) })
    else echoes (record c { line = c.line ++ r ∷ [] }) (echo_ctl (encode_rune r))

unfoldable pub cooked_runes : Cooked → List ℕ → Cooked
unfolding cooked_rune
cooked_runes c [] = c
cooked_runes c (r ∷ rs) = cooked_runes (cooked_rune c r) rs

-- `cookedInput`
unfoldable pub cooked_input : Cooked → Bytes → Cooked
unfolding cooked_runes runes
cooked_input c keys = cooked_runes c (runes keys)

-- how long the character of a lead byte is
abbrev rune_need : ℕ → ℕ
rune_need c = if leb 0xF0 c then 4 else if leb 0xE0 c then 3 else 2

-- the loop of `partialRune` over the bytes from the end, the first of them the `i`th
unfoldable pub partial_from : ℕ → ℕ → Bytes → ℕ
partial_from zero i b = 0
partial_from (suc k) i [] = 0
partial_from (suc k) i (c ∷ b) =
    let later = partial_from k (suc i) b in
    if ltb c 0x80 then 0 else if leb 0xC0 c then (if ltb i (rune_need c) then i else 0) else later

-- `partialRune(b)`
unfoldable pub partial_rune : Bytes → ℕ
unfolding partial_from reverse_onto
partial_rune b = partial_from 3 1 (reverse_onto b [])

-- `strings.ReplaceAll(s, "\n", "\r\n")`
unfoldable pub new_lines : Bytes → Bytes
new_lines [] = []
new_lines (c ∷ s) = if c == b'\n' then b'\r' ∷ b'\n' ∷ new_lines s else c ∷ new_lines s

-- what `termWriter` keeps for the next write, and the texts that `WriteString` gave to the terminal
pub record TermWriter : Type 0 where
  pub tail : Bytes
  pub term : List Bytes

-- `termWriter.Write`
unfoldable pub term_write : Bool → TermWriter → Bytes → TermWriter
unfolding new_lines partial_rune
term_write pty w p =
    let b = w.tail ++ p in
    let n = length b - partial_rune b in
    let s = if pty then take n b else new_lines (take n b) in
    record { tail = drop n b; term = if equal s [] then w.term else w.term ++ s ∷ [] }

unfoldable pub term_writes : Bool → TermWriter → List Bytes → TermWriter
unfolding term_write
term_writes pty w [] = w
term_writes pty w (p ∷ ps) = term_writes pty (term_write pty w p) ps
