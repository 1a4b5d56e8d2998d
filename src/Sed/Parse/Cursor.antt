-- ===== src/Sed/Parse/Cursor.antt =====
-- shell/sed/parse.go: the methods of `parser` that move over the script.
pub mod Reading
pub mod Progress
use websh.Base.Result.{Fault, plain, at_char, Result, ok, err}
use websh.Base.Int.{ℤ, signed, int_modulus}
use websh.Base.{
  ℕ, ◌+◌, ◌-◌, ◌*◌, ◌%◌, Bool, not, ◌&&◌, ◌||◌, [], ◌∷◌, ◌++◌, ◌==◌, if◌then◌else◌, Bytes, codes,
  one_of, is_digit, length,
}

-- What stays fixed of a `parser`: the length of the script, `ere`, and what `regexp.Compile` takes.
-- The position is given by the bytes that are left, `p.src[p.pos:]`.
pub record Parser : Type 0 where
  pub total : ℕ
  pub ere : Bool
  pub compiles : Bytes → Bool

-- `p.peek()`: 0 at the end
abbrev pub peek : Bytes → ℕ
peek [] = 0
peek (c ∷ _) = c

-- `p.skipSpace()`
unfoldable pub skip_space : Bytes → Bytes
skip_space [] = []
skip_space (c ∷ rest) =
    let later = skip_space rest in if c == b' ' || c == b'\t' then later else c ∷ rest

-- `p.errorf(…)`
unfoldable pub errorf {ℓ} : {A : Type ℓ} → Parser → Bytes → Fault → Result A
errorf p rest f = err (at_char (p.total - length rest) f)

-- The loop of `number`, its sum as a 64-bit pattern.
unfoldable pub number_loop : ℕ → Bytes → ℕ × Bytes
number_loop n [] = (n, [])
number_loop n (c ∷ rest) =
    let later = number_loop ((n * 10 + (c - b'0')) % int_modulus) rest in
    if is_digit c then later else (n, c ∷ rest)

-- `p.number()`
unfoldable pub number : Bytes → ℤ × Bytes
unfolding number_loop signed
number rest = let r = number_loop 0 rest in (signed r.0, r.1)

-- `p.delimited(delim)` with what is read so far
unfoldable pub delimited_loop : Parser → ℕ → Bytes → Bytes → Result (Bytes × Bytes)
unfolding errorf
delimited_loop p delim out [] = errorf p [] (plain "unterminated `s' command")
delimited_loop p delim out (c ∷ []) =
    if c == delim
    then ok (out, [])
    else if c == b'\n' && not (delim == b'\n')
    then errorf p (c ∷ []) (plain "unterminated address regex")
    else errorf p [] (plain "unterminated `s' command")
delimited_loop p delim out (c ∷ d ∷ rest) =
    let escaped =
      delimited_loop p delim (out ++ (if d == b'\n' then b'\n' ∷ [] else b'\\' ∷ d ∷ [])) rest in
    let further = delimited_loop p delim (out ++ c ∷ []) (d ∷ rest) in
    if c == b'\\'
    then escaped
    else if c == delim
    then ok (out, d ∷ rest)
    else if c == b'\n' && not (delim == b'\n')
    then errorf p (c ∷ d ∷ rest) (plain "unterminated address regex")
    else further

-- `p.delimited(delim)`
unfoldable pub delimited : Parser → ℕ → Bytes → Result (Bytes × Bytes)
unfolding delimited_loop
delimited p delim = delimited_loop p delim []

-- The bytes of `toEnd` and what follows them; the flag is `semicolon`.
unfoldable pub to_end_loop : Bool → Bytes → Bytes × Bytes
to_end_loop semicolon [] = ([], [])
to_end_loop semicolon (c ∷ rest) =
    let later = to_end_loop semicolon rest in
    if c == b'\n' || (semicolon && (c == b';' || c == b'}'))
    then ([], c ∷ rest)
    else (c ∷ later.0, later.1)

keep_right : ℕ → Bytes → Bytes
keep_right c [] = if c == b' ' || c == b'\t' then [] else c ∷ []
keep_right c (d ∷ r) = c ∷ d ∷ r

-- `strings.TrimRight(s, " \t")`
unfoldable pub trim_right : Bytes → Bytes
unfolding keep_right
trim_right [] = []
trim_right (c ∷ s) = keep_right c (trim_right s)

-- `p.toEnd(semicolon)`
unfoldable pub to_end : Bool → Bytes → Bytes × Bytes
unfolding skip_space to_end_loop trim_right
to_end semicolon rest = let r = to_end_loop semicolon (skip_space rest) in (trim_right r.0, r.1)

-- `p.endCommand()`, with the bytes left behind the blanks
unfoldable pub end_command : Parser → Bytes → Result Bytes
unfolding errorf skip_space
end_command p rest =
    let r = skip_space rest in
    elim r [
      | [] ↦ ok []
      | c ∷ s ↦
          if one_of (codes ";\n}#") c
          then ok (c ∷ s)
          else errorf p (c ∷ s) (plain "extra characters after command")
    ]
