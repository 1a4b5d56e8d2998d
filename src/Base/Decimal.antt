-- ===== src/Base/Decimal.antt =====
-- Go's `strconv.Itoa` and `strconv.Atoi`.
use websh.Base.{
  ℕ, zero, suc, ◌+◌, ◌-◌, ◌*◌, ◌/◌, ◌%◌, Bool, true, false, ◌&&◌, Option, none, some, [], ◌∷◌, ◌==◌,
  if◌then◌else◌, Bytes, ltb, leb, is_digit,
}
use websh.Base.Int.{ℤ, pos, negsuc, int_limit}

-- the digits by rounds of division, one more round than `n` has digits
unfoldable pub digits_of : ℕ → ℕ → Bytes → Bytes
digits_of zero n out = out
digits_of (suc k) n out =
    let later = digits_of k (n / 10) ((b'0' + n % 10) ∷ out) in
    if ltb n 10 then (b'0' + n) ∷ out else later

unfoldable pub itoa : ℕ → Bytes
unfolding digits_of
itoa n = digits_of (suc n) n []

-- Go's `strconv.Itoa` for an `int`
unfoldable pub itoa_int : ℤ → Bytes
unfolding itoa
itoa_int (pos n) = itoa n
itoa_int (negsuc n) = b'-' ∷ itoa (suc n)

-- every byte is a digit
unfoldable pub all_digits : Bytes → Bool
all_digits [] = true
all_digits (c ∷ s) = is_digit c && all_digits s

-- the number that digits write, behind `n`
unfoldable pub digits_value : ℕ → Bytes → ℕ
digits_value n [] = n
digits_value n (c ∷ s) = digits_value (n * 10 + (c - b'0')) s

abbrev one_digit : Bytes → Bool
one_digit [] = false
one_digit (c ∷ s) = true

-- an `int` from a sign and digits, out of range none
abbrev signed_value : Bool → ℕ → Option ℤ
signed_value true n =
    if n == 0 then some (pos 0) else if leb n int_limit then some (negsuc (n - 1)) else none
signed_value false n = if ltb n int_limit then some (pos n) else none

abbrev digits_int : Bool → Bytes → Option ℤ
digits_int minus s =
    if one_digit s && all_digits s then signed_value minus (digits_value 0 s) else none

-- `strconv.Atoi(s)`; `none` is an error
unfoldable pub atoi : Bytes → Option ℤ
unfolding all_digits digits_value
atoi [] = none
atoi (c ∷ s) =
    if c == b'-'
    then digits_int true s
    else if c == b'+'
    then digits_int false s
    else digits_int false (c ∷ s)
