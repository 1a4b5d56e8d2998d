-- ===== src/Sed/Numbers.antt =====
-- The numbers of a script: what `=` prints, and what `number` reads.
use websh.Base.{
  ℕ, zero, suc, ◌+◌, ◌-◌, ◌*◌, ◌/◌, ◌%◌, ◌≤◌, ◌<◌, ◌≡◌, refl, ap, ◌∙◌, false, [], ◌∷◌, ◌++◌, arith,
  ltb, Bytes, Bool-cases, inl, inr, is_digit, ltb→lt,
}
use websh.Base.Int.{pos, signed, signed-pos, int_limit, int_modulus}
use websh.Sed.Parse.Cursor.{number_loop, number, peek}
use websh.Base.Decimal.{digits_of, itoa}

number_loop-digit :
    (a d : ℕ) (rest : Bytes)
    → d < 10
    → a * 10 + d < int_modulus
    → number_loop a ((b'0' + d) ∷ rest) ≡ number_loop (a * 10 + d) rest
unfolding number_loop
number_loop-digit a d rest h k = ground (arith, digit d)
  where
    digit : (d : ℕ) → b'0' + d - b'0' ≡ d
    digit d = omega arith

number_loop-digits_of :
    (k n : ℕ) (out : Bytes)
    → n < k
    → n < int_modulus
    → number_loop 0 (digits_of k n out) ≡ number_loop n out
unfolding digits_of
number_loop-digits_of zero n out h m = absurd (omega arith)
number_loop-digits_of (suc k) n out h m = elim (Bool-cases (ltb n 10)) [
  | inl e ↦
      let start : 0 * 10 + n ≡ n = omega arith in
      rw e (
        number_loop-digit 0 n out (ltb→lt n 10 e) (omega arith)
        ∙ ap (λ (t : ℕ). number_loop t out) start)
  | inr e ↦
      let big : 10 ≤ n = ground arith in
      let whole : n / 10 * 10 + n % 10 ≡ n = omega arith in
      rw e (
        number_loop-digits_of k (n / 10) ((b'0' + n % 10) ∷ out) (omega arith) (omega arith)
        ∙ number_loop-digit (n / 10) (n % 10) out (omega arith) (omega arith)
        ∙ ap (λ (t : ℕ). number_loop t out) whole)
]

digits_of-append :
    (k n : ℕ) (out rest : Bytes) → digits_of k n out ++ rest ≡ digits_of k n (out ++ rest)
unfolding digits_of
digits_of-append zero n out rest = refl
digits_of-append (suc k) n out rest =
    ground (arith, digits_of-append k (n / 10) ((b'0' + n % 10) ∷ out) rest)

number_loop-end :
    (n : ℕ) (rest : Bytes) → is_digit (peek rest) ≡ false → number_loop n rest ≡ (n, rest)
unfolding number_loop
number_loop-end n [] h = refl
number_loop-end n (c ∷ rest) h = rw h

-- A line number below 2^63, as the command `=` prints it, is read by `number` as that number, up
-- to the first byte that is no digit.
pub number-itoa :
    (n : ℕ) (rest : Bytes)
    → n < int_limit
    → is_digit (peek rest) ≡ false
    → number (itoa n ++ rest) ≡ (pos n, rest)
unfolding number itoa
number-itoa n rest h k =
    let read =
      ap (number_loop 0) (digits_of-append (suc n) n [] rest)
      ∙ number_loop-digits_of (suc n) n rest (omega arith) (omega arith)
      ∙ number_loop-end n rest k in
    ap (λ r. (signed r.0, r.1)) read ∙ ap (λ s. (s, rest)) (signed-pos n h)
