-- ===== src/Sed/Parse/Arguments.antt =====
-- shell/sed/parse.go: `command` and what it calls for the arguments of a command.
pub mod Progress
use websh.Base.Result.{◌>>=◌, plain, with_byte, Result, ok, err}
use websh.Base.Int.{pos, int_eq}
use websh.Sed.Types.{Command, is_none}
use websh.Sed.Translate.{compile_regex}
use websh.Base.Utf8.{runes}
use websh.Base.{
  ℕ, zero, suc, ◌-◌, Bool, true, false, not, ◌||◌, List, [], ◌∷◌, ◌++◌, ◌==◌, if◌then◌else◌, Bytes,
  codes, one_of, within, is_digit, length, drop, equal,
}
use websh.Sed.Parse.Cursor.{
  Parser, peek, skip_space, errorf, number, delimited, to_end, end_command,
}
use websh.Sed.Parse.Replacement.{parse_replacement}

-- The bytes of the text of a, i and c, and what follows its newline.
unfoldable pub text_loop : Bytes → Bytes → Bytes × Bytes
text_loop out [] = (out, [])
text_loop out (c ∷ []) = if c == b'\n' then (out, []) else (out ++ c ∷ [], [])
text_loop out (c ∷ d ∷ rest) =
    let escaped = text_loop (out ++ d ∷ []) rest in
    let further = text_loop (out ++ c ∷ []) (d ∷ rest) in
    if c == b'\n' then (out, d ∷ rest) else if c == b'\\' then escaped else further

-- where the text begins: behind `\` and a newline, or behind the blanks
unfoldable pub text_start : Bytes → Bytes
unfolding skip_space
text_start rest =
    let r = skip_space rest in
    if peek r == b'\\'
    then (let s = drop 1 r in if peek s == b'\n' then drop 1 s else s)
    else skip_space r

-- `p.text(cmd)`
unfoldable pub text_argument : Parser → Command → Bytes → Result (Command × Bytes)
unfolding errorf text_loop text_start
text_argument p cmd rest = elim (text_start rest) [
  | [] ↦ errorf p [] (plain "expected \\ after `a', `c' or `i'")
  | c ∷ s ↦ let r = text_loop [] (c ∷ s) in ok (record cmd { text = r.0 }, r.1)
]

-- What the flags of `s` set.
pub record Flags : Type 0 where
  pub cmd : Command
  pub icase : Bool
  pub multi : Bool

-- The loop `flags:`; the number counts the digits of a number that is read already.
unfoldable pub flags_loop : Parser → ℕ → Flags → Bytes → Result (Flags × Bytes)
unfolding equal errorf number to_end
flags_loop p skip f [] = ok (f, [])
flags_loop p (suc k) f (c ∷ rest) = flags_loop p k f rest
flags_loop p zero f (c ∷ rest) =
    let n = number (c ∷ rest) in
    let global = flags_loop p 0 (record f { cmd = record (f.cmd) { global = true } }) rest in
    let print = flags_loop p 0 (record f { cmd = record (f.cmd) { print = true } }) rest in
    let icase = flags_loop p 0 (record f { icase = true }) rest in
    let multi = flags_loop p 0 (record f { multi = true }) rest in
    let nth =
      flags_loop p (length rest - length n.1) (record f { cmd = record (f.cmd) { nth = n.0 } })
        rest in
    if c == b'g'
    then global
    else if c == b'p'
    then print
    else if c == b'i' || c == b'I'
    then icase
    else if c == b'm' || c == b'M'
    then multi
    else if within b'1' b'9' c
    then nth
    else if c == b'w'
    then (let r = to_end false rest in
        if equal r.0 []
        then errorf p r.1 (plain "missing filename in r/R/w/W commands")
        else ok (record f { cmd = record (f.cmd) { wfile = r.0 } }, r.1))
    else if c == b'e'
    then errorf p (c ∷ rest) (plain "the e flag is not supported")
    else ok (f, c ∷ rest)

-- the pattern of `s`, compiled
substitute_pattern : Parser → ℕ → Bytes → Flags → Bytes → Result Command
unfolding compile_regex equal errorf
substitute_pattern p delim pattern f rest =
    if equal pattern []
    then ok (record (f.cmd) { re_empty = true })
    else elim (compile_regex p.compiles pattern p.ere delim f.icase f.multi) [
      | err e ↦ errorf p rest e
      | ok re ↦ ok (record (f.cmd) { re = re })
    ]

-- from the two delimited texts on
substitute_finish : Parser → ℕ → Bytes → Bytes → Flags × Bytes → Result (Command × Bytes)
unfolding end_command equal int_eq parse_replacement substitute_pattern
substitute_finish p delim pattern replacement (f, rest) =
    let nth = if int_eq f.cmd.nth 0 then pos 1 else f.cmd.nth in
    do
      cmd ←
          substitute_pattern p delim pattern (record f { cmd = record (f.cmd) { nth = nth } }) rest
      let done = record cmd { repl = parse_replacement replacement }
      if equal done.wfile [] then (do r ← end_command p rest; ok (done, r)) else ok (done, rest)

-- `p.substitute(cmd)`
unfoldable pub substitute_argument : Parser → Command → Bytes → Result (Command × Bytes)
unfolding delimited errorf flags_loop substitute_finish
substitute_argument p cmd [] = errorf p [] (plain "unterminated `s' command")
substitute_argument p cmd (delim ∷ rest) =
    if delim == b'\\' || delim == b'\n'
    then errorf p (delim ∷ rest) (plain "delimiter cannot be a backslash or newline")
    else do
      pattern ← delimited p delim rest
      replacement ← delimited p delim pattern.1
      flags ← flags_loop p 0 (record { cmd = cmd; icase = false; multi = false }) replacement.1
      substitute_finish p delim pattern.0 replacement.0 flags

-- `unescape` of `translit`
unfoldable pub unescape : List ℕ → List ℕ
unescape [] = []
unescape (c ∷ []) = c ∷ []
unescape (c ∷ d ∷ rs) =
    let escaped = unescape rs in
    let further = unescape (d ∷ rs) in
    if c == b'\\'
    then (if d == b'n' then b'\n' else if d == b't' then b'\t' else d) ∷ escaped
    else c ∷ further

-- The assignments of `cmd.ymap[a[i]] = b[i]`, the last one in front.
unfoldable pub assign_all : List ℕ → List ℕ → List (ℕ × ℕ) → List (ℕ × ℕ)
assign_all (a ∷ as') (b ∷ bs) m = assign_all as' bs ((a, b) ∷ m)
assign_all _ _ m = m

-- `p.translit(cmd)`
unfoldable pub translit_argument : Parser → Command → Bytes → Result (Command × Bytes)
unfolding assign_all delimited end_command errorf runes unescape
translit_argument p cmd [] = errorf p [] (plain "unterminated `y' command")
translit_argument p cmd (delim ∷ rest) = do
  src ← delimited p delim rest
  dst ← delimited p delim src.1
  let a = unescape (runes src.0)
  let b = unescape (runes dst.0)
  if length a == length b
      then (do r ← end_command p dst.1; ok (record cmd { ymap = assign_all a b [] }, r))
      else errorf p dst.1 (plain "strings for `y' command are different lengths")

-- `case 'q', 'Q'`
quit_argument : Parser → Command → Bytes → Result (Command × Bytes)
unfolding end_command number skip_space
quit_argument p cmd rest =
    let r = skip_space rest in
    if is_digit (peek r)
    then (let n = number r in do s ← end_command p n.1; ok (record cmd { code = n.0 }, s))
    else do s ← end_command p r; ok (cmd, s)

-- `case ':'`
label_argument : Parser → Command → Bytes → Result (Command × Bytes)
unfolding equal errorf to_end
label_argument p cmd rest =
    if not (is_none cmd.a1.kind)
    then errorf p rest (plain ": doesn't want any addresses")
    else let r = to_end true rest in
      if equal r.0 []
      then errorf p r.1 (plain "\":\" lacks a label")
      else ok (record cmd { text = r.0 }, r.1)

-- `case 'r', 'w'`
file_argument : Parser → Command → Bytes → Result (Command × Bytes)
unfolding equal errorf to_end
file_argument p cmd rest =
    let r = to_end false rest in
    if equal r.0 []
    then errorf p r.1 (plain "missing filename in r/R/w/W commands")
    else ok (record cmd { fname = r.0 }, r.1)

-- `p.command(cmd)`, from behind the name
unfoldable pub command_argument : Parser → Command → Bytes → Result (Command × Bytes)
unfolding end_command errorf file_argument label_argument quit_argument substitute_argument
    text_argument to_end translit_argument
command_argument p cmd rest =
    if cmd.name == b'{'
    then ok (cmd, rest)
    else if one_of (codes "}=dDgGhHnNpPxz") cmd.name
    then (do r ← end_command p rest; ok (cmd, r))
    else if cmd.name == b'q' || cmd.name == b'Q'
    then quit_argument p cmd rest
    else if cmd.name == b':'
    then label_argument p cmd rest
    else if one_of (codes "btT") cmd.name
    then (let r = to_end true rest in ok (record cmd { text = r.0 }, r.1))
    else if cmd.name == b'r' || cmd.name == b'w'
    then file_argument p cmd rest
    else if one_of (codes "aic") cmd.name
    then text_argument p cmd rest
    else if cmd.name == b's'
    then substitute_argument p cmd rest
    else if cmd.name == b'y'
    then translit_argument p cmd rest
    else errorf p rest (with_byte "unknown command: `%c'" cmd.name)
