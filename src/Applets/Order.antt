-- ===== src/Applets/Order.antt =====
-- The orders that `sort` is asked for, of the bytes and of the numbers of the lines.

use websh.Base.{
  ◌≡◌, refl, subst, ℕ, suc, ◌+◌, ◌≤◌, ◌<◌, ◌==◌, Option, none, some, inl, inr, Bool-cases, Bool,
  true, false, [], ◌∷◌, Bytes, arith,
}
use websh.Base.Int.{ℤ, pos, negsuc}
use websh.Base.Decimal.{atoi}
use websh.Applets.Lines.{less_text, less_int, numeric_key, or_zero, sort_less}

-- A text stands before another, or is the same: a front part of it, or the lower one in the first
-- byte in which the two differ.
pub data TextLe : Bytes → Bytes → Type 0 where
  front : (t : Bytes) → TextLe [] t
  lower : (c d : ℕ) (s t : Bytes) → c < d → TextLe (c ∷ s) (d ∷ t)
  same : (c : ℕ) (s t : Bytes) → TextLe s t → TextLe (c ∷ s) (c ∷ t)

-- The number of a line: what is written in it between the spaces, and 0 where that is no number.
pub data NumberOf (trim : Bytes → Bytes) (line : Bytes) : ℤ → Type 0 where
  written : (z : ℤ) → atoi (trim line) ≡ some z → NumberOf trim line z
  unwritten : atoi (trim line) ≡ none → NumberOf trim line (pos 0)

-- an integer as the difference of two numbers
abbrev above_zero : ℤ → ℕ
above_zero (pos n) = n
above_zero (negsuc n) = 0

abbrev below_zero : ℤ → ℕ
below_zero (pos n) = 0
below_zero (negsuc n) = suc n

unfoldable pub IntLe : ℤ → ℤ → Type 0
IntLe a b = above_zero a + below_zero b ≤ above_zero b + below_zero a

pub record NumberLe (trim : Bytes → Bytes) (s t : Bytes) : Type 0 where
  pub left : ℤ
  pub right : ℤ
  pub left_number : NumberOf trim s left
  pub right_number : NumberOf trim t right
  pub le : IntLe left right

unfoldable pub LineLe : (Bytes → Bytes) → Bool → Bytes → Bytes → Type 0
LineLe trim true = NumberLe trim
LineLe trim false = TextLe

-- The order that the options ask for: of the numbers or of the bytes, and turned round with `-r`.
unfoldable pub InOrder : (Bytes → Bytes) → Bool → Bool → Bytes → Bytes → Type 0
InOrder trim numeric true s t = LineLe trim numeric t s
InOrder trim numeric false s t = LineLe trim numeric s t

less_text-TextLe : (s t : Bytes) → less_text t s ≡ false → TextLe s t
unfolding less_text
less_text-TextLe [] t h = front t
less_text-TextLe (c ∷ s) [] h = cc
less_text-TextLe (c ∷ s) (d ∷ t) h = elim (Bool-cases (d == c)) [
  | inl e ↦
      let rest : less_text t s ≡ false = ground (arith, h, e) in
      let heads : c ≡ d = ground (arith, e) in
      subst (λ x. TextLe (c ∷ s) (x ∷ t)) heads (same c s t (less_text-TextLe s t rest))
  | inr e ↦ lower c d s t (ground (arith, h, e))
]

less_int-IntLe : (a b : ℤ) → less_int b a ≡ false → IntLe a b
unfolding IntLe
less_int-IntLe (pos a) (pos b) h = ground (arith, h)
less_int-IntLe (pos a) (negsuc b) h = cc
less_int-IntLe (negsuc a) (pos b) h = omega arith
less_int-IntLe (negsuc a) (negsuc b) h = ground (arith, h)

numeric_key-NumberOf :
    (trim : Bytes → Bytes) (line : Bytes) → NumberOf trim line (numeric_key trim line)
unfolding numeric_key
numeric_key-NumberOf trim line = go (atoi (trim line)) refl
  where
    go : (o : Option ℤ) → atoi (trim line) ≡ o → NumberOf trim line (or_zero o)
    go none e = unwritten e
    go (some z) e = written z e

pub sort_less-LineLe :
    (trim : Bytes → Bytes) (numeric : Bool) (s t : Bytes)
    → sort_less trim numeric t s ≡ false
    → LineLe trim numeric s t
unfolding sort_less LineLe
sort_less-LineLe trim true s t h = record {
  left = numeric_key trim s;
  right = numeric_key trim t;
  left_number = numeric_key-NumberOf trim s;
  right_number = numeric_key-NumberOf trim t;
  le = less_int-IntLe (numeric_key trim s) (numeric_key trim t) h;
}
sort_less-LineLe trim false s t h = less_text-TextLe s t h

less_text-asym : (s t : Bytes) → less_text s t ≡ true → less_text t s ≡ false
unfolding less_text
less_text-asym s [] h = cc
less_text-asym [] (d ∷ t) h = refl
less_text-asym (c ∷ s) (d ∷ t) h = ground (arith, less_text-asym s t)

less_int-asym : (a b : ℤ) → less_int a b ≡ true → less_int b a ≡ false
less_int-asym (pos a) (pos b) h = ground arith
less_int-asym (pos a) (negsuc b) h = cc
less_int-asym (negsuc a) (pos b) h = refl
less_int-asym (negsuc a) (negsuc b) h = ground arith

pub sort_less-asym :
    (trim : Bytes → Bytes) (numeric : Bool) (s t : Bytes)
    → sort_less trim numeric s t ≡ true
    → sort_less trim numeric t s ≡ false
unfolding sort_less
sort_less-asym trim true s t = less_int-asym (numeric_key trim s) (numeric_key trim t)
sort_less-asym trim false s t = less_text-asym s t
