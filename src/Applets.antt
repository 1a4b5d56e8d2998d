-- ===== src/Applets.antt =====
-- shell/applets.go: what the applets share: flags, counts, and the lines of their inputs.
mod Counts
pub mod Cut
pub mod Files
pub mod Lines
pub mod Numbers
mod Runs
mod Order
mod Sorted
mod Sequence
pub mod Text
mod Witnesses
use websh.Base.{
  trim_newline, ℕ, ◌+◌, ◌-◌, Bool, true, false, not, ◌&&◌, ◌||◌, Option, none, some, List, [], ◌∷◌,
  ◌++◌, ◌==◌, if◌then◌else◌, Bytes, codes, equal, ends_in, one_of, length, take, drop, split_lines,
  ltb,
}
use websh.Base.Result.{Fault, Result, ok, err, ◌>>=◌}
use websh.Base.Int.{ℤ, pos, negsuc}
use websh.Base.Decimal.{atoi, all_digits}
use websh.Base.Paths.{is_abs, clean, join_path}

-- What an applet reads: its input, the directory of the interpreter, and the files by their paths.
pub record Handler : Type 0 where
  pub stdin : Result Bytes
  pub dir : Bytes
  pub read_file : Bytes → Result Bytes

-- What is written to `hc.Stderr`: a text, or by `fail` a name and an error.
pub data Complaint : Type 0 where
  says : Bytes → Complaint
  failed : Bytes → Fault → Complaint

-- the exit code, and what was written
pub record Done : Type 0 where
  pub code : ℕ
  pub out : Bytes
  pub errors : List Complaint

abbrev pub prints : Bytes → Done
prints out = record { code = 0; out = out; errors = [] }

-- `fail(hc, name, err)`
abbrev pub fail : Bytes → Fault → Done
fail name e = record { code = 1; out = []; errors = failed name e ∷ [] }

-- a message to `hc.Stderr` and its exit code
abbrev pub refuse : ℕ → Bytes → Done
refuse code text = record { code = code; out = []; errors = says text ∷ [] }

-- What an argument is to `parseFlags`.
pub data Argument : Type 0 where
  flag_letters : Bytes → Argument
  end_mark plain_argument : Argument

unfoldable pub argument : Bytes → Argument
unfolding equal
argument [] = plain_argument
argument (c ∷ []) = plain_argument
argument (c ∷ d ∷ s) =
    if equal (c ∷ d ∷ s) (codes "--")
    then end_mark
    else if c == b'-'
    then flag_letters (d ∷ s)
    else plain_argument

-- `parseFlags(args)`; the flags are those of the map that are true
unfoldable pub parse_flags : List Bytes → Bytes × List Bytes
unfolding argument
parse_flags [] = ([], [])
parse_flags (a ∷ rest) = elim (argument a) [
  | flag_letters s ↦ let r = parse_flags rest in (s ++ r.0, r.1)
  | end_mark ↦ ([], rest)
  | plain_argument ↦ ([], a ∷ rest)
]

-- `resolveArg(hc, path)`
unfoldable pub resolve_arg : Bytes → Bytes → Bytes
unfolding clean is_abs join_path
resolve_arg dir path = if is_abs path then clean path else join_path dir path

-- `strings.TrimPrefix(s, p)` for one byte
abbrev trim_byte : ℕ → Bytes → Bytes
trim_byte b [] = []
trim_byte b (c ∷ s) = if c == b then s else c ∷ s

abbrev starts_with_dash : Bytes → Bool
starts_with_dash [] = false
starts_with_dash (c ∷ s) = c == b'-'

-- the number of `-3` or `-n3`
unfoldable pub count_of : Bytes → Option Bytes
unfolding all_digits equal
count_of a =
    let num = trim_byte b'n' (trim_byte b'-' a) in
    if ltb 1 (length a) && starts_with_dash a && not (equal num []) && all_digits num
    then some num
    else none

-- `countArgs(args)`
unfoldable pub count_args : List Bytes → List Bytes
unfolding count_of
count_args [] = []
count_args (a ∷ rest) = elim (count_of a) [
  | none ↦ a ∷ count_args rest
  | some num ↦ codes "-n" ∷ num ∷ count_args rest
]

abbrev count_if : Option ℤ → Bytes → List Bytes → ℤ × List Bytes
count_if none a rest = (pos 10, a ∷ rest)
count_if (some n) a rest = (n, rest)

-- `headTailCount(flags, rest)`
unfoldable pub head_tail_count : Bytes → List Bytes → ℤ × List Bytes
unfolding atoi
head_tail_count flags [] = (pos 10, [])
head_tail_count flags (a ∷ rest) =
    if one_of flags b'n' then count_if (atoi a) a rest else (pos 10, a ∷ rest)

-- the files one after the other
unfoldable pub read_files : Handler → List Bytes → Result Bytes
unfolding resolve_arg
read_files h [] = ok []
read_files h (a ∷ rest) = do
  b ← h.read_file (resolve_arg h.dir a)
  t ← read_files h rest
  ok (b ++ t)

unfoldable pub read_input : Handler → List Bytes → Result Bytes
unfolding read_files
read_input h [] = h.stdin
read_input h (a ∷ rest) = read_files h (a ∷ rest)

-- the lines of a text, as `readLines` makes them
abbrev no_empty_line : Bytes × List Bytes → List Bytes
no_empty_line ([], []) = []
no_empty_line (l, ls) = l ∷ ls

unfoldable pub lines_of : Bytes → List Bytes
unfolding split_lines trim_newline
lines_of s = no_empty_line (split_lines (trim_newline s))

-- `readLines(s, hc, args)`
unfoldable pub read_lines : Handler → List Bytes → Result (List Bytes)
unfolding lines_of read_input
read_lines h rest = do s ← read_input h rest; ok (lines_of s)

-- `fprintln(hc.Stdout, l)` for each line
unfoldable pub print_lines : List Bytes → Bytes
print_lines [] = []
print_lines (l ∷ ls) = l ++ b'\n' ∷ print_lines ls
