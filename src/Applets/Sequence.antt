-- ===== src/Applets/Sequence.antt =====
-- `seq` prints the numbers from the first to the last, by the increment, and ends.
use native.Mathlib.Nat.{div-eq-sub-div, div-eq_of_lt}
use websh.Base.{
  ℕ, zero, suc, ◌+◌, ◌-◌, ◌≤◌, ◌<◌, ◌≡◌, refl, sym, ap, ◌∙◌, true, none, some, List, [], ◌∷◌, arith,
  leb, ltb, leb→le, ltb→lt, Bool-cases, inl, inr, ◌/◌, ◌%◌, subst, if◌then◌else◌,
}
use websh.Base.Int.{ℤ, pos, negsuc, int_limit, int_modulus, pattern_of, signed}
use websh.Applets.Numbers.{le_int, add_int, seq_numbers}

-- an `int` is in range
unfoldable pub InRange : ℤ → Type 0
InRange (pos n) = n < int_limit
InRange (negsuc n) = n < int_limit

-- the sum of an integer and a number, which does not wrap
unfoldable pub plus : ℤ → ℕ → ℤ
plus (pos n) k = pos (n + k)
plus (negsuc n) k = if ltb n k then pos (k - suc n) else negsuc (n - k)

-- `n` numbers from `a` on, `k` apart
unfoldable pub progression : ℕ → ℤ → ℕ → List ℤ
unfolding plus
progression zero a k = []
progression (suc n) a k = a ∷ progression n (plus a k) k

-- how far an `int` is above the lowest
abbrev pub offset : ℤ → ℕ
offset (pos n) = int_limit + n
offset (negsuc n) = int_limit - suc n

-- how many numbers there are from `a` to `last` that are `suc k` apart
abbrev pub seq_count : ℤ → ℕ → ℤ → ℕ
seq_count a k last = (offset last + suc k - offset a) / suc k

offset-plus : (a : ℤ) (k : ℕ) → InRange a → offset (plus a k) ≡ offset a + k
unfolding InRange plus
offset-plus (pos n) k h = omega arith
offset-plus (negsuc n) k h = ground (arith, h)

offset-lt : (a : ℤ) → InRange a → offset a < int_modulus
unfolding InRange
offset-lt (pos n) h = omega (arith, h)
offset-lt (negsuc n) h = omega (arith, h)

plus-InRange : (a : ℤ) (k : ℕ) → InRange a → offset a + k < int_modulus → InRange (plus a k)
unfolding InRange plus
plus-InRange (pos n) k h r = omega (arith, r)
plus-InRange (negsuc n) k h r = elim (Bool-cases (ltb n k)) [
  | inl e ↦ let above : k - suc n < int_limit = ground (arith, e, h, r) in rw (plus, e) above
  | inr e ↦ let below : n - k < int_limit = ground (arith, e, h, r) in rw (plus, e) below
]

add_int-plus :
    (a : ℤ) (k : ℕ) → InRange a → offset a + k < int_modulus → add_int a (pos k) ≡ plus a k
unfolding InRange add_int pattern_of plus signed
add_int-plus (pos n) k h r = ground (arith, r)
add_int-plus (negsuc n) k h r = ground (arith, h, r)

le_int-offset : (a b : ℤ) → InRange a → InRange b → le_int a b ≡ leb (offset a) (offset b)
unfolding InRange
le_int-offset (pos a) (pos b) h k = ground arith
le_int-offset (pos a) (negsuc b) h k = ground (arith, k)
le_int-offset (negsuc a) (pos b) h k = ground (arith, h)
le_int-offset (negsuc a) (negsuc b) h k = ground (arith, h, k)

-- the numbers of `seq_count`, from the distances
count-next :
    (a k last : ℕ)
    → a ≤ last
    → (last + suc k - a) / suc k ≡ suc ((last + suc k - (a + suc k)) / suc k)
count-next a k last h =
    let same : last + suc k - a - suc k ≡ last + suc k - (a + suc k) = omega arith in
    let one_more : (last + suc k - a) / suc k ≡ (last + suc k - a - suc k) / suc k + 1 =
      div-eq-sub-div (omega arith) (omega arith) in
    one_more ∙ ap (λ d. d / suc k + 1) same ∙ (omega arith)

count-none : (a k last : ℕ) → last < a → (last + suc k - a) / suc k ≡ 0
count-none a k last h = div-eq_of_lt (omega arith)

-- For any `int`s as the first and the last number, below 0 too, with a positive increment and room
-- for one step behind the last: the loop of `seq` ends, and what it prints are the numbers from the
-- first on by the increment, as many as there are up to the last. The number of rounds is any above
-- the distance from the first to the last.
pub seq_numbers-progression :
    (fuel : ℕ) (a : ℤ) (k : ℕ) (last : ℤ)
    → InRange a
    → InRange last
    → InRange (plus last (suc k))
    → suc (offset last) - offset a < fuel
    → seq_numbers fuel a (pos (suc k)) last ≡ some (progression (seq_count a k last) a (suc k))
unfolding progression seq_numbers
seq_numbers-progression zero a k last h g r f = ground (arith, f)
seq_numbers-progression (suc fuel) a k last h g r f =
    elim (Bool-cases (leb (offset a) (offset last))) [
      | inl e ↦
          let le : offset a ≤ offset last = leb→le (offset a) (offset last) e in
          let goes = le_int-offset a last h g ∙ e in
          let top : offset last + suc k < int_modulus =
            subst (λ n. n < int_modulus) (offset-plus last (suc k) g)
              (offset-lt (plus last (suc k)) r) in
          let room : offset a + suc k < int_modulus = omega arith in
          let apart = offset-plus a (suc k) h in
          let ih =
            seq_numbers-progression fuel (plus a (suc k)) k last (plus-InRange a (suc k) h room) g r
              (omega (arith, apart)) in
          let count : seq_count a k last ≡ suc (seq_count (plus a (suc k)) k last) =
            count-next (offset a) k (offset last) le
            ∙ ap (λ n. suc ((offset last + suc k - n) / suc k)) (sym apart) in
          rw (seq_numbers, goes, add_int-plus a (suc k) h room, ih, count) refl
      | inr e ↦
          let above : offset last < offset a = ground (arith, e) in
          let stops = le_int-offset a last h g ∙ e in
          rw (seq_numbers, stops, count-none (offset a) k (offset last) above) refl
    ]

signed-InRange : (n : ℕ) → n < int_modulus → InRange (signed n)
unfolding InRange signed
signed-InRange n h = elim (Bool-cases (ltb n int_limit)) [
  | inl e ↦ rw (signed, e) (ltb→lt n int_limit e)
  | inr e ↦ let k : int_limit ≤ n = ground (arith, e) in rw (signed, e) (omega arith)
]

le_int-greatest : (i : ℤ) → InRange i → le_int i (pos (int_limit - 1)) ≡ true
unfolding InRange
le_int-greatest (pos n) h = ground (arith, h)
le_int-greatest (negsuc n) h = refl

add_int-InRange : (a b : ℤ) → InRange (add_int a b)
unfolding add_int
add_int-InRange a b = signed-InRange ((pattern_of a + pattern_of b) % int_modulus) (omega arith)

-- Up to the greatest `int` the loop of `seq` does not end, whatever the first number and the positive
-- increment: no number of rounds is enough.
pub seq_numbers-greatest :
    (fuel : ℕ) (i : ℤ) (k : ℕ)
    → InRange i
    → seq_numbers fuel i (pos (suc k)) (pos (int_limit - 1)) ≡ none
unfolding seq_numbers
seq_numbers-greatest zero i k h = refl
seq_numbers-greatest (suc fuel) i k h =
    let goes = le_int-greatest i h in
    let ih =
      seq_numbers-greatest fuel (add_int i (pos (suc k))) k (add_int-InRange i (pos (suc k))) in
    rw (seq_numbers, goes, ih) refl
