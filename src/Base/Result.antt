-- ===== src/Base/Result.antt =====
-- Fallible code: a value, or the `error` that Go returns.
use Prim.Native.Nat.{ℕ}
use Prim.Native.String.{String}
use mathlib.Core.Path.{◌≡◌, refl}
use websh.Base.Tests.{Bytes}

-- The errors by their texts: `errors.New`, a text with a byte or a string formatted into it, and
-- `parser.errorf`, which puts the position in front of either.
pub data Fault : Type 0 where
  plain : String → Fault
  with_byte : String → ℕ → Fault
  with_text : String → Bytes → Fault
  at_char : ℕ → Fault → Fault

pub data Result {ℓ} (V : Type ℓ) : Type ℓ where
  err : Fault → Result V
  ok : V → Result V

infixl 5 ◌>>=◌
-- The next step of a `do` block runs where the one in front of it has given a value.
abbrev pub ◌>>=◌ {κ ℓ} : {V : Type κ} {W : Type ℓ} → Result V → (V → Result W) → Result W
err fault >>= next = err fault
ok v >>= next = next v

-- Both steps of a chain that gives a value have given one.
pub >>=-ok {κ ℓ} :
    {V : Type κ} {W : Type ℓ} (r : Result V) (next : V → Result W) {w : W}
    → r >>= next ≡ ok w
    → (v : V) × (r ≡ ok v) × (next v ≡ ok w)
>>=-ok (err fault) next both = cc
>>=-ok (ok v) next both = (v, refl, both)
