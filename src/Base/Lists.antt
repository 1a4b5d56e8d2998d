-- ===== src/Base/Lists.antt =====
-- Lists over the native numbers, and what the sources use of Go's `strings` and slices.
use Prim.Native.Nat.{ℕ, zero, suc, ◌+◌, ◌-◌, ◌<◌}
use mathlib.Core.Path.{◌≡◌, refl, sym, ap, ap₂, subst, ◌∙◌}
use mathlib.Core.Logic.{◌↔◌}
use mathlib.Core.Bool.{Bool, true, false, ◌&&◌}
use mathlib.Core.Option.{Option, none, some}
use mathlib.Core.List.{List, [], ◌∷◌, ◌++◌}
use native.Mathlib.Omega.{arith}
use websh.Base.Tests.{Bytes, ◌==◌, if◌then◌else◌}

module _ {ℓ} {A : Type ℓ} where
  abbrev pub length : List A → ℕ
  length [] = 0
  length (x ∷ xs) = suc (length xs)

  abbrev pub take : ℕ → List A → List A
  take zero xs = []
  take (suc n) [] = []
  take (suc n) (x ∷ xs) = x ∷ take n xs

  abbrev pub drop : ℕ → List A → List A
  drop zero xs = xs
  drop (suc n) [] = []
  drop (suc n) (x ∷ xs) = drop n xs

  abbrev pub get_elem? : List A → ℕ → Option A
  get_elem? [] i = none
  get_elem? (x ∷ xs) zero = some x
  get_elem? (x ∷ xs) (suc i) = get_elem? xs i

  -- A write out of bounds changes nothing.
  abbrev pub set : List A → ℕ → A → List A
  set [] i v = []
  set (x ∷ xs) zero v = v ∷ xs
  set (x ∷ xs) (suc i) v = x ∷ set xs i v

  -- `s[a:b]`
  abbrev pub slice : ℕ → ℕ → List A → List A
  slice a b s = take (b - a) (drop a s)

  pub length-append : (xs ys : List A) → length (xs ++ ys) ≡ length xs + length ys
  length-append [] ys = omega arith
  length-append (x ∷ xs) ys = omega (arith, length-append xs ys)

  pub length-set : (xs : List A) (i : ℕ) (v : A) → length (set xs i v) ≡ length xs
  length-set [] i v = refl
  length-set (x ∷ xs) zero v = refl
  length-set (x ∷ xs) (suc i) v = ap suc (length-set xs i v)

  pub get_elem?-lt : (xs : List A) (i : ℕ) {a : A} → get_elem? xs i ≡ some a → i < length xs
  get_elem?-lt [] i h = ground arith
  get_elem?-lt (x ∷ xs) zero h = omega arith
  get_elem?-lt (x ∷ xs) (suc i) h = omega (arith, get_elem?-lt xs i h)

  pub take-drop : (n : ℕ) (xs : List A) → take n xs ++ drop n xs ≡ xs
  take-drop zero xs = refl
  take-drop (suc n) [] = refl
  take-drop (suc n) (x ∷ xs) = ap (◌∷◌ x) (take-drop n xs)

-- `==` on strings
unfoldable pub equal : Bytes → Bytes → Bool
equal [] t = elim t [ [] ↦ true | _ ∷ _ ↦ false ]
equal (c ∷ s) [] = false
equal (c ∷ s) (d ∷ t) = let rest = equal s t in c == d && rest

-- The test decides equality of strings.
pub equal_iff : (s t : Bytes) → (equal s t ≡ true) ↔ (s ≡ t)
unfolding equal
equal_iff [] [] = ground arith
equal_iff [] (d ∷ t) = ground arith
equal_iff (c ∷ s) [] = ground arith
equal_iff (c ∷ s) (d ∷ t) = ground (arith, equal_iff s t)

-- `strings.HasPrefix(s, p)`
unfoldable pub has_prefix : Bytes → Bytes → Bool
has_prefix s [] = true
has_prefix [] (p ∷ ps) = false
has_prefix (c ∷ s) (p ∷ ps) = c == p && has_prefix s ps

-- `strings.HasSuffix(s, "\n")`
unfoldable pub ends_in : ℕ → Bytes → Bool
ends_in b [] = false
ends_in b (c ∷ []) = c == b
ends_in b (c ∷ d ∷ s) = ends_in b (d ∷ s)

abbrev shift_found : Option ℕ → Option ℕ
shift_found none = none
shift_found (some i) = some (suc i)

-- `strings.IndexByte(s, b)`; `none` is -1
unfoldable pub index_byte : ℕ → Bytes → Option ℕ
index_byte b [] = none
index_byte b (c ∷ s) = let later = shift_found (index_byte b s) in if c == b then some 0 else later

-- `strings.Index(s, sub)`; `none` is -1
unfoldable pub index : Bytes → Bytes → Option ℕ
unfolding has_prefix
index [] sub = if has_prefix [] sub then some 0 else none
index (c ∷ s) sub =
    let later = shift_found (index s sub) in if has_prefix (c ∷ s) sub then some 0 else later

-- A list taken apart at a piece that stands at `i`.
abbrev pub Splits : ℕ → Bytes → Bytes → Type 0
Splits i sub s = take i s ++ (sub ++ drop (i + length sub) s) ≡ s

Splits-zero : (sub s : Bytes) → sub ++ drop (length sub) s ≡ s → Splits 0 sub s
Splits-zero sub s h =
    let e : 0 + length sub ≡ length sub = omega arith in ap (λ n. sub ++ drop n s) e ∙ h

pub Splits-suc : (i c : ℕ) (sub s : Bytes) → Splits i sub s → Splits (suc i) sub (c ∷ s)
Splits-suc i c sub s h =
    let e : suc i + length sub ≡ suc (i + length sub) = omega arith in
    ap (λ n. c ∷ (take i s ++ (sub ++ drop n (c ∷ s)))) e ∙ ap (◌∷◌ c) h

has_prefix-drop : (s p : Bytes) → has_prefix s p ≡ true → p ++ drop (length p) s ≡ s
unfolding has_prefix
has_prefix-drop s [] h = refl
has_prefix-drop [] (p ∷ ps) h = ground (arith, h)
has_prefix-drop (c ∷ s) (p ∷ ps) h =
    let e : c ≡ p = ground (arith, h) in
    let t : has_prefix s ps ≡ true = ground (arith, h) in ap₂ ◌∷◌ (sym e) (has_prefix-drop s ps t)

-- What `strings.Index` finds stands there.
pub index-Splits : (s sub : Bytes) (i : ℕ) → index s sub ≡ some i → Splits i sub s
unfolding index
index-Splits [] sub i h = go (has_prefix [] sub) refl h
  where
    go :
        (b : Bool) → has_prefix [] sub ≡ b → (if b then some 0 else none) ≡ some i → Splits i sub []
    go true e k =
        let z : 0 ≡ i = cc in
        subst (λ n. Splits n sub []) z (Splits-zero sub [] (has_prefix-drop [] sub e))
    go false e k = cc
index-Splits (c ∷ s) sub i h =
    go (has_prefix (c ∷ s) sub) (index s sub) (λ j e. index-Splits s sub j e) refl refl h
  where
    go :
        (b : Bool) (o : Option ℕ)
        → ((j : ℕ) → index s sub ≡ some j → Splits j sub s)
        → has_prefix (c ∷ s) sub ≡ b
        → index s sub ≡ o
        → (if b then some 0 else shift_found o) ≡ some i
        → Splits i sub (c ∷ s)
    go true o ih e f k =
        let z : 0 ≡ i = cc in
        subst (λ n. Splits n sub (c ∷ s)) z
          (Splits-zero sub (c ∷ s) (has_prefix-drop (c ∷ s) sub e))
    go false none ih e f k = cc
    go false (some j) ih e f k =
        let z : suc j ≡ i = cc in
        subst (λ n. Splits n sub (c ∷ s)) z (Splits-suc j c sub s (ih j f))

-- `strings.Split(s, "\n")` and `bytes.Split`: the first line and the others
unfoldable pub split_lines : Bytes → Bytes × List Bytes
split_lines [] = ([], [])
split_lines (c ∷ s) =
    let later = split_lines s in
    if c == b'\n' then ([], later.0 ∷ later.1) else (c ∷ later.0, later.1)

-- `strings.TrimSuffix(s, "\n")`
unfoldable pub trim_newline : Bytes → Bytes
trim_newline s = if ends_in b'\n' s then take (length s - 1) s else s
