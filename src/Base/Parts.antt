-- ===== src/Base/Parts.antt =====
-- Lists taken apart at the length of a part of them.
use Prim.Native.Nat.{ℕ, suc, ◌+◌}
use mathlib.Core.Path.{◌≡◌, refl, ap, ◌∙◌}
use mathlib.Core.List.{List, [], ◌∷◌, ◌++◌}
use native.Mathlib.Omega.{arith}
use websh.Base.Lists.{length, take, drop}

pub take-length {ℓ} : {A : Type ℓ} (xs ys : List A) → take (length xs) (xs ++ ys) ≡ xs
take-length [] ys = refl
take-length (x ∷ xs) ys = ap (◌∷◌ x) (take-length xs ys)

pub drop-length {ℓ} : {A : Type ℓ} (xs ys : List A) → drop (length xs) (xs ++ ys) ≡ ys
drop-length [] ys = refl
drop-length (x ∷ xs) ys = drop-length xs ys

pub suc_plus : (m n : ℕ) → suc m + n ≡ suc (m + n)
suc_plus m n = omega arith

pub zero_plus : (n : ℕ) → 0 + n ≡ n
zero_plus n = omega arith

pub drop-more {ℓ} :
    {A : Type ℓ} (n : ℕ) (xs ys : List A) → drop (length xs + n) (xs ++ ys) ≡ drop n ys
drop-more n [] ys = ap (λ k. drop k ys) (zero_plus n)
drop-more n (x ∷ xs) ys =
    ap (λ k. drop k (x ∷ xs ++ ys)) (suc_plus (length xs) n) ∙ drop-more n xs ys

pub take-more {ℓ} :
    {A : Type ℓ} (n : ℕ) (xs ys : List A) → take (length xs + n) (xs ++ ys) ≡ xs ++ take n ys
take-more n [] ys = ap (λ k. take k ys) (zero_plus n)
take-more n (x ∷ xs) ys =
    ap (λ k. take k (x ∷ xs ++ ys)) (suc_plus (length xs) n) ∙ ap (◌∷◌ x) (take-more n xs ys)
