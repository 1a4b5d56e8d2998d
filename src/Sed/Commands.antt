-- ===== src/Sed/Commands.antt =====
-- shell/sed/sed.go: what each command does, the `switch c.name` of `exec`.
pub mod Script
use websh.Base.Decimal.{itoa}
use websh.Base.Result.{plain, Result, ok, err}
use websh.Sed.Types.{Command, is_none}
use websh.Base.Utf8.{map_runes}
use websh.Base.{
  ℕ, zero, suc, ◌+◌, ◌/◌, ◌%◌, true, false, not, ◌||◌, Option, none, some, List, [], ◌∷◌, ◌++◌, ltb,
  ◌==◌, if◌then◌else◌, Bytes, take, drop, equal, ends_in, index_byte,
}
use websh.Sed.Host.{Host}
use websh.Sed.Input.{read}
use websh.Sed.Output.{write, line}
use websh.Sed.Substitute.{replace_all}
use websh.Sed.State.{
  State, act_end, act_delete, act_restart, act_quit, act_quit_silent, Next, proceed, jump, stop,
  flush_appends, autoprint, last_line, write_file, written,
}

-- `s` behind its replacement: the flags p and w
substitute_done : Host → State → Command → State × Result Next
unfolding equal line write_file written
substitute_done h st c =
    let st' = if c.print then record st { out = line h st.out st.ps st.nl } else st in
    if equal c.wfile []
    then (st', ok proceed)
    else written st' (write_file h st'.p c.wfile (st'.ps ++ b'\n' ∷ []))

-- `st.substitute(c)` with the regex `re`, which is the one used last from here on
substitute_with : Host → State → Command → Bytes → State × Result Next
unfolding replace_all substitute_done
substitute_with h st c re =
    let st' = record st { p = record (st.p) { last_rx = some re } } in
    elim (replace_all h c st.ps (h.find_all re st.ps)) [
      | none ↦ (st', ok proceed)
      | some ps ↦ substitute_done h (record st' { ps = ps; replaced = true }) c
    ]

-- `st.substitute(c)`
unfoldable pub substitute : Host → State → Command → State × Result Next
unfolding substitute_with
substitute h st c =
    if c.re_empty
    then (elim st.p.last_rx [
      | none ↦ (st, err (plain "no previous regular expression"))
      | some re ↦ substitute_with h st c re
    ])
    else substitute_with h st c c.re

-- `c.ymap[r]`, or the rune itself
unfoldable pub transliterate : List (ℕ × ℕ) → ℕ → ℕ
transliterate [] r = r
transliterate ((a, b) ∷ m) r = if a == r then b else transliterate m r

-- the bytes that `r` appends
read_appends : Option (Bytes → Option Bytes) → Bytes → List Bytes
unfolding ends_in equal
read_appends none name = []
read_appends (some read_file) name = elim (read_file name) [
  | none ↦ []
  | some b ↦ if equal b [] then [] else (if ends_in b'\n' b then b else b ++ b'\n' ∷ []) ∷ []
]

-- `case 'D'`
delete_first : Host → State → Option ℕ → State × Result Next
unfolding flush_appends
delete_first h st none = (st, ok (stop act_delete))
delete_first h st (some i) =
    (flush_appends h (record st { ps = drop (i + 1) st.ps }), ok (stop act_restart))

-- what `case 'P'` prints
first_line : Bytes → Bytes
unfolding index_byte
first_line ps = elim (index_byte b'\n' ps) [ some i ↦ take i ps | none ↦ ps ]

-- `case 'n'`, where there is a next line
next_cycle : Host → State → State
unfolding autoprint flush_appends read
next_cycle h st =
    let st' = flush_appends h (autoprint h st) in
    let r = read st'.input in record st' { ps = r.0.0; nl = r.0.1; input = r.1 }

-- `case 'N'`, where there is a next line
append_next : Host → State → State
unfolding flush_appends read
append_next h st =
    let st' = flush_appends h st in
    let r = read st'.input in record st' { ps = st'.ps ++ b'\n' ∷ r.0.0; nl = r.0.1; input = r.1 }

abbrev set_ps : State → Bytes → State × Result Next
set_ps st ps = (record st { ps = ps }, ok proceed)

abbrev set_hold : State → Bytes → State
set_hold st s = record st { p = record (st.p) { hold = s } }

-- `case 'c'`: in the middle of a range the line is only deleted
change : Host → State → Command → State
unfolding write
change h st c =
    if is_none c.a2.kind || c.negate || not c.active
    then record st { out = write h st.out (c.text ++ b'\n' ∷ []) }
    else st

-- the second half of the `switch c.name`, for the commands that jump, read or write
unfoldable pub run_other : Host → State → Command → State × Result Next
unfolding append_next first_line line map_runes next_cycle read_appends substitute transliterate
    write_file written
run_other h st c =
    if c.name == b'p'
    then (record st { out = line h st.out st.ps st.nl }, ok proceed)
    else if c.name == b'P'
    then (record st { out = line h st.out (first_line st.ps) true }, ok proceed)
    else if c.name == b'n'
    then (if last_line st then (st, ok (stop act_end)) else (next_cycle h st, ok proceed))
    else if c.name == b'N'
    then (if last_line st then (st, ok (stop act_end)) else (append_next h st, ok proceed))
    else if c.name == b'q'
    then (record st { code = c.code }, ok (stop act_quit))
    else if c.name == b'Q'
    then (record st { code = c.code }, ok (stop act_quit_silent))
    else if c.name == b'r'
    then (record st { append_q = st.append_q ++ read_appends h.read_file c.fname }, ok proceed)
    else if c.name == b'w'
    then written st (write_file h st.p c.fname (st.ps ++ b'\n' ∷ []))
    else if c.name == b's'
    then substitute h st c
    else if c.name == b'y'
    then set_ps st (map_runes (transliterate c.ymap) st.ps)
    else if c.name == b'b'
    then (st, ok (jump c.block))
    else if c.name == b't'
    then (if st.replaced
        then (record st { replaced = false }, ok (jump c.block))
        else (st, ok proceed))
    else if c.name == b'T'
    then (if not st.replaced
        then (st, ok (jump c.block))
        else (record st { replaced = false }, ok proceed))
    else (st, ok proceed)

-- the `switch c.name` of `exec`
unfoldable pub run_command : Host → State → Command → State × Result Next
unfolding change delete_first index_byte itoa run_other write
run_command h st c =
    if c.name == b'{'
    then (st, ok proceed)
    else if c.name == b'='
    then (record st { out = write h st.out (itoa st.input.line ++ b'\n' ∷ []) }, ok proceed)
    else if c.name == b'a'
    then (record st { append_q = st.append_q ++ (c.text ++ b'\n' ∷ []) ∷ [] }, ok proceed)
    else if c.name == b'i'
    then (record st { out = write h st.out (c.text ++ b'\n' ∷ []) }, ok proceed)
    else if c.name == b'c'
    then (change h st c, ok (stop act_delete))
    else if c.name == b'd'
    then (st, ok (stop act_delete))
    else if c.name == b'D'
    then delete_first h st (index_byte b'\n' st.ps)
    else if c.name == b'g'
    then set_ps st st.p.hold
    else if c.name == b'G'
    then set_ps st (st.ps ++ b'\n' ∷ st.p.hold)
    else if c.name == b'h'
    then (set_hold st st.ps, ok proceed)
    else if c.name == b'H'
    then (set_hold st (st.p.hold ++ b'\n' ∷ st.ps), ok proceed)
    else if c.name == b'x'
    then (record (set_hold st st.ps) { ps = st.p.hold }, ok proceed)
    else if c.name == b'z'
    then set_ps st []
    else run_other h st c
