-- ===== src/Base/Int.antt =====
-- Go's `int`, 64 bits wide: an integer, and the value that a bit pattern stands for.
use Prim.Native.Nat.{ℕ, suc, ◌≤◌, ◌+◌, ◌-◌, ◌^◌, ◌%◌, ◌<◌}
use mathlib.Core.Path.{◌≡◌}
use mathlib.Core.Bool.{Bool, true, false}
use native.Mathlib.Omega.{arith}
use websh.Base.Tests.{ltb, leb, ◌==◌, if◌then◌else◌}

-- `negsuc n` is -(n + 1).
pub data ℤ : Type 0 where
  pos : ℕ → ℤ
  negsuc : ℕ → ℤ

abbrev pub int_modulus : ℕ
int_modulus = 2 ^ 64

abbrev pub int_limit : ℕ
int_limit = 2 ^ 63

-- The value of a 64-bit pattern.
unfoldable pub signed : ℕ → ℤ
signed n = if ltb n int_limit then pos n else negsuc (int_modulus - 1 - n)

-- The pattern of a value, taken modulo 2^64.
unfoldable pub pattern_of : ℤ → ℕ
pattern_of (pos n) = n % int_modulus
pattern_of (negsuc n) = (int_modulus - 1 - n % int_modulus) % int_modulus

-- `a <= n`, `a == n`, `n < a` for an `int` and a count
unfoldable pub int_le : ℤ → ℕ → Bool
int_le (pos a) n = leb a n
int_le (negsuc a) n = true

unfoldable pub int_eq : ℤ → ℕ → Bool
int_eq (pos a) n = a == n
int_eq (negsuc a) n = false

unfoldable pub int_gt : ℤ → ℕ → Bool
int_gt (pos a) n = ltb n a
int_gt (negsuc a) n = false

-- `n + a`, which wraps
unfoldable pub int_add : ℕ → ℤ → ℤ
unfolding pattern_of signed
int_add n a = signed ((n + pattern_of a) % int_modulus)

pub signed-pos : (n : ℕ) → n < int_limit → signed n ≡ pos n
unfolding signed
signed-pos n h = ground arith

pub int_add-pos : (n a : ℕ) → n + a < int_limit → int_add n (pos a) ≡ pos (n + a)
unfolding int_add
int_add-pos n a h = ground arith

-- `n - a`, which wraps
unfoldable pub int_sub : ℕ → ℤ → ℤ
unfolding pattern_of signed
int_sub n a = signed ((n + (int_modulus - pattern_of a)) % int_modulus)

abbrev pub int_abs : ℤ → ℕ
int_abs (pos a) = a
int_abs (negsuc a) = suc a

pub int_sub-pos : (n a : ℕ) → a ≤ n → n < int_limit → int_sub n (pos a) ≡ pos (n - a)
unfolding int_sub
int_sub-pos n a h k = ground arith
