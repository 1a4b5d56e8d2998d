-- ===== src/Applets/Numbers.antt =====
-- shell/applets.go: seq; shell/applets2.go: xxd, base64, md5sum and sha256sum.
use websh.Base.{
  ℕ, zero, suc, ◌+◌, ◌-◌, ◌/◌, ◌%◌, Bool, true, false, ◌&&◌, Option, none, some, List, [], ◌∷◌,
  ◌++◌, ◌==◌, if◌then◌else◌, Bytes, codes, one_of, length, take, drop, ltb, leb,
}
use websh.Base.Result.{Result, ok, err}
use websh.Base.Int.{ℤ, pos, negsuc, int_modulus, pattern_of, signed}
use websh.Base.Decimal.{itoa_int, atoi}
use websh.Applets.{Handler, Complaint, Done, prints, fail, refuse, parse_flags, resolve_arg}

-- `a <= b` for two `int`s
abbrev pub le_int : ℤ → ℤ → Bool
le_int (pos a) (pos b) = leb a b
le_int (pos a) (negsuc b) = false
le_int (negsuc a) (pos b) = true
le_int (negsuc a) (negsuc b) = leb b a

-- `a + b`, which wraps
unfoldable pub add_int : ℤ → ℤ → ℤ
unfolding pattern_of signed
add_int a b = signed ((pattern_of a + pattern_of b) % int_modulus)

-- `(incr > 0 && i <= last) || (incr < 0 && i >= last)`
abbrev pub seq_goes : ℤ → ℤ → ℤ → Bool
seq_goes i (pos zero) last = false
seq_goes i (pos (suc k)) last = le_int i last
seq_goes i (negsuc k) last = le_int last i

abbrev pub cons_some : ℤ → Option (List ℤ) → Option (List ℤ)
cons_some i none = none
cons_some i (some is) = some (i ∷ is)

-- the numbers of the loop of `runSeq`, for `fuel` rounds at most
unfoldable pub seq_numbers : ℕ → ℤ → ℤ → ℤ → Option (List ℤ)
unfolding add_int
seq_numbers zero i incr last = none
seq_numbers (suc fuel) i incr last = elim (seq_goes i incr last) [
  | true ↦ cons_some i (seq_numbers fuel (add_int i incr) incr last)
  | false ↦ some []
]

-- What `runSeq` makes of its arguments: first, increment and last.
pub data SeqArgs : Type 0 where
  range_of : ℤ → ℤ → ℤ → SeqArgs
  usage invalid_args : SeqArgs

abbrev seq_range : Option ℤ → Option ℤ → Option ℤ → SeqArgs
seq_range (some first) (some (pos zero)) (some last) = invalid_args
seq_range (some first) (some (pos (suc k))) (some last) = range_of first (pos (suc k)) last
seq_range (some first) (some (negsuc k)) (some last) = range_of first (negsuc k) last
seq_range (some first) (some incr) none = invalid_args
seq_range (some first) none last = invalid_args
seq_range none incr last = invalid_args

unfoldable pub seq_args : List Bytes → SeqArgs
unfolding atoi
seq_args [] = usage
seq_args (l ∷ []) = seq_range (some (pos 1)) (some (pos 1)) (atoi l)
seq_args (f ∷ l ∷ []) = seq_range (atoi f) (some (pos 1)) (atoi l)
seq_args (f ∷ i ∷ l ∷ []) = seq_range (atoi f) (atoi i) (atoi l)
seq_args (f ∷ i ∷ l ∷ m ∷ more) = usage

unfoldable pub print_numbers : List ℤ → Bytes
unfolding itoa_int
print_numbers [] = []
print_numbers (i ∷ is) = itoa_int i ++ b'\n' ∷ print_numbers is

abbrev seq_done : Option (List ℤ) → Option Done
seq_done none = none
seq_done (some is) = some (prints (print_numbers is))

abbrev seq_with : ℕ → SeqArgs → Option Done
unfolding seq_numbers
seq_with fuel (range_of first incr last) = seq_done (seq_numbers fuel first incr last)
seq_with fuel usage = some (refuse 1 (codes "usage: seq [first [incr]] last"))
seq_with fuel invalid_args = some (refuse 1 (codes "seq: invalid arguments"))

-- `runSeq`; `none` is a loop still going after `fuel` rounds
unfoldable pub run_seq : ℕ → List Bytes → Option Done
unfolding parse_flags print_numbers seq_args seq_numbers
run_seq fuel args = seq_with fuel (seq_args (parse_flags args).1)

-- a digit of `%x`
unfoldable pub hex_digit : ℕ → ℕ
hex_digit d = if ltb d 10 then b'0' + d else b'a' + (d - 10)

-- `%02x` of a byte
unfoldable pub hex_byte : ℕ → Bytes
unfolding hex_digit
hex_byte c = hex_digit (c / 16) ∷ hex_digit (c % 16) ∷ []

-- the last `k` digits of `%x`, in front of others
unfoldable pub hex_digits : ℕ → ℕ → Bytes → Bytes
unfolding hex_digit
hex_digits zero n out = out
hex_digits (suc k) n out = hex_digits k (n / 16) (hex_digit (n % 16) ∷ out)

-- `%08x` of an offset below 2^32
unfoldable pub hex_offset : ℕ → Bytes
unfolding hex_digits
hex_offset off = hex_digits 8 off []

abbrev gap : ℕ → Bytes → Bytes
gap i s = if i % 2 == 1 then b' ' ∷ s else s

-- `hexPart`: `n` cells from the `i`th on
unfoldable pub hex_part : ℕ → ℕ → Bytes → Bytes
unfolding hex_byte
hex_part zero i s = []
hex_part (suc n) i [] = b' ' ∷ b' ' ∷ gap i (hex_part n (suc i) [])
hex_part (suc n) i (c ∷ s) = hex_byte c ++ gap i (hex_part n (suc i) s)

unfoldable pub ascii_part : Bytes → Bytes
ascii_part [] = []
ascii_part (c ∷ s) = (if leb 32 c && ltb c 127 then c else b'.') ∷ ascii_part s

-- one line of the dump: the offset, the hexadecimal part and the text
unfoldable pub dump_line : ℕ → Bytes → Bytes
unfolding ascii_part hex_offset hex_part
dump_line off chunk =
    hex_offset off
    ++ (codes ": " ++ (hex_part 16 0 chunk ++ b' ' ∷ (ascii_part chunk ++ b'\n' ∷ [])))

-- the lines of the dump; the number bounds the rounds, of which there are no more than bytes
unfoldable pub dump : ℕ → ℕ → Bytes → List Bytes
unfolding dump_line
dump k off [] = []
dump zero off (c ∷ s) = []
dump (suc k) off (c ∷ s) = dump_line off (take 16 (c ∷ s)) ∷ dump k (off + 16) (drop 16 (c ∷ s))

unfoldable pub joined : List Bytes → Bytes
joined [] = []
joined (l ∷ ls) = l ++ joined ls

-- the input, or the first file
unfoldable pub read_first : Handler → List Bytes → Result Bytes
unfolding resolve_arg
read_first h [] = h.stdin
read_first h (a ∷ more) = h.read_file (resolve_arg h.dir a)

unfoldable pub xxd_of : Result Bytes → Done
unfolding dump joined
xxd_of (err e) = fail (codes "xxd") e
xxd_of (ok s) = prints (joined (dump (length s) 0 s))

-- `runXxd`
unfoldable pub run_xxd : Handler → List Bytes → Done
unfolding parse_flags read_first xxd_of
run_xxd h args = xxd_of (read_first h (parse_flags args).1)

-- What `base64` takes from Go's `encoding/base64` and `strings`.
pub record Base64 : Type 0 where
  pub encode_string : Bytes → Bytes
  pub decode_string : Bytes → Result Bytes
  pub trim_space : Bytes → Bytes

abbrev decoded : Result Bytes → Done
decoded (err e) = fail (codes "base64") e
decoded (ok s) = prints s

abbrev base64_of : Base64 → Bytes → Result Bytes → Done
base64_of b flags (err e) = fail (codes "base64") e
base64_of b flags (ok s) =
    if one_of flags b'd'
    then decoded (b.decode_string (b.trim_space s))
    else prints (b.encode_string s ++ b'\n' ∷ [])

-- `runBase64`
unfoldable pub run_base64 : Base64 → Handler → List Bytes → Done
unfolding parse_flags read_first
run_base64 b h args = let f = parse_flags args in base64_of b f.0 (read_first h f.1)

abbrev digest_line : (Bytes → Bytes) → Bytes → Bytes → Bytes
digest_line digest a s = digest s ++ (codes "  " ++ (a ++ b'\n' ∷ []))

-- one file of a hash applet, and the others behind it
abbrev hash_next : (Bytes → Bytes) → Bytes → Bytes → Result Bytes → Done → Done
hash_next digest name a (err e) later = record {
  code = 1;
  out = later.out;
  errors = Complaint.failed name e ∷ later.errors;
}
hash_next digest name a (ok s) later = record {
  code = later.code;
  out = digest_line digest a s ++ later.out;
  errors = later.errors;
}

unfoldable pub hash_files : (Bytes → Bytes) → Bytes → Handler → List Bytes → Done
unfolding resolve_arg
hash_files digest name h [] = prints []
hash_files digest name h (a ∷ rest) =
    hash_next digest name a (h.read_file (resolve_arg h.dir a)) (hash_files digest name h rest)

abbrev hash_input : (Bytes → Bytes) → Bytes → Result Bytes → Done
hash_input digest name (err e) = fail name e
hash_input digest name (ok s) = prints (digest_line digest (codes "-") s)

unfoldable pub hash_of : (Bytes → Bytes) → Bytes → Handler → List Bytes → Done
unfolding hash_files
hash_of digest name h [] = hash_input digest name h.stdin
hash_of digest name h (a ∷ rest) = hash_files digest name h (a ∷ rest)

-- `hashApplet(name)`; `digest` is the hexadecimal digest of the name
unfoldable pub hash_applet : (Bytes → Bytes) → Bytes → Handler → List Bytes → Done
unfolding hash_of parse_flags
hash_applet digest name h args = hash_of digest name h (parse_flags args).1
