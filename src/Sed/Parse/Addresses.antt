-- ===== src/Sed/Parse/Addresses.antt =====
-- shell/sed/parse.go: `address`.
pub mod Progress
use websh.Base.Result.{plain, Result, ok, err, ◌>>=◌}
use websh.Base.Int.{ℤ, int_eq}
use websh.Sed.Types.{
  addr_line, addr_last, addr_regex, addr_step, addr_plus, addr_zero, Address, no_address,
}
use websh.Sed.Translate.{compile_regex}
use websh.Base.{
  ℕ, Bool, true, false, not, ◌&&◌, ◌||◌, [], ◌∷◌, ◌==◌, if◌then◌else◌, Bytes, is_digit, drop, equal,
}
use websh.Sed.Parse.Cursor.{Parser, peek, errorf, number, delimited}

-- `case c >= '0' && c <= '9'`
address_number : Parser → Bool → ℤ × Bytes → Result (Address × Bytes)
unfolding errorf int_eq number
address_number p first (n, rest) =
    if peek rest == b'~' && first
    then (let m = number (drop 1 rest) in
        ok (record no_address { kind = addr_step; line = n; step = m.0 }, m.1))
    else if int_eq n 0
    then (if first
        then ok (record no_address { kind = addr_zero }, rest)
        else errorf p rest (plain "invalid usage of line address 0"))
    else ok (record no_address { kind = addr_line; line = n }, rest)

-- The flags `I` and `M`, and what follows them.
unfoldable pub address_flags : Bool → Bool → Bytes → Bool × Bool × Bytes
address_flags icase multi [] = (icase, multi, [])
address_flags icase multi (c ∷ rest) =
    let later = address_flags (icase || c == b'I') (multi || c == b'M') rest in
    if c == b'I' || c == b'M' then later else (icase, multi, c ∷ rest)

-- from the delimited text on
address_compile : Parser → ℕ → Bytes × Bytes → Result (Address × Bytes)
unfolding address_flags compile_regex equal errorf
address_compile p delim (raw, rest) =
    let flags = address_flags false false rest in
    if equal raw []
    then ok (record no_address { kind = addr_regex; empty = true }, flags.2)
    else elim (compile_regex p.compiles raw p.ere delim flags.0 flags.1) [
      | err e ↦ errorf p flags.2 e
      | ok re ↦ ok (record no_address { kind = addr_regex; re = re }, flags.2)
    ]

-- behind the backslash of `\cREc`
address_custom : Parser → Bytes → Result (Address × Bytes)
unfolding address_compile delimited errorf
address_custom p [] = errorf p [] (plain "unexpected end of script")
address_custom p (delim ∷ rest) = delimited p delim rest >>= address_compile p delim

-- `p.address(first)`
unfoldable pub address : Parser → Bool → Bytes → Result (Address × Bytes)
unfolding address_compile address_custom address_number delimited number
address p first rest =
    let c = peek rest in
    let behind = drop 1 rest in
    if is_digit c
    then address_number p first (number rest)
    else if c == b'$'
    then ok (record no_address { kind = addr_last }, behind)
    else if c == b'+' && not first
    then (let n = number behind in ok (record no_address { kind = addr_plus; line = n.0 }, n.1))
    else if c == b'~' && not first
    then (let n = number behind in ok (record no_address { kind = addr_step; step = n.0 }, n.1))
    else if c == b'/'
    then delimited p b'/' behind >>= address_compile p b'/'
    else if c == b'\\'
    then address_custom p behind
    else ok (no_address, rest)
