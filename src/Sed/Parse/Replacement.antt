-- ===== src/Sed/Parse/Replacement.antt =====
-- shell/sed/parse.go: `parseReplacement`.
pub mod RoundTrip
use websh.Sed.Types.{ReplPart, lit, group, case_op}
use websh.Base.{ℕ, ◌-◌, Bool, ◌||◌, List, [], ◌∷◌, ◌++◌, ◌==◌, if◌then◌else◌, Bytes, is_digit}

-- `flush`
abbrev pub flush : Bytes → List ReplPart
flush [] = []
flush (c ∷ cs) = lit (c ∷ cs) ∷ []

abbrev pub is_case_op : ℕ → Bool
is_case_op c = c == b'U' || c == b'L' || c == b'u' || c == b'l' || c == b'E'

-- What an escaped byte stands for: the byte that `lit.WriteByte` gets.
abbrev pub escaped_literal : ℕ → ℕ
escaped_literal c = if c == b'n' then b'\n' else if c == b't' then b'\t' else c

-- the loop, with the literal gathered so far and the bytes still to read
unfoldable pub replacement_loop : Bytes → Bytes → List ReplPart
replacement_loop buf [] = flush buf
replacement_loop buf (c ∷ []) =
    if c == b'&' then flush buf ++ group 0 ∷ [] else flush (buf ++ c ∷ [])
replacement_loop buf (c ∷ d ∷ s) =
    let reset = replacement_loop [] s in
    let escaped = replacement_loop (buf ++ escaped_literal d ∷ []) s in
    let whole = replacement_loop [] (d ∷ s) in
    let further = replacement_loop (buf ++ c ∷ []) (d ∷ s) in
    if c == b'&'
    then flush buf ++ group 0 ∷ whole
    else if c == b'\\'
    then (if is_digit d
        then flush buf ++ group (d - b'0') ∷ reset
        else if is_case_op d
        then flush buf ++ case_op d ∷ reset
        else escaped)
    else further

-- `parseReplacement`; its `delim` changes nothing.
unfoldable pub parse_replacement : Bytes → List ReplPart
unfolding replacement_loop
parse_replacement = replacement_loop []
