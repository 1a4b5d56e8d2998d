-- ===== src/Edit/Lines.antt =====
-- Lists taken apart at the length of a part of them.
use websh.Base.{
  ℕ, suc, ◌+◌, ◌-◌, ◌<◌, ◌≤◌, ◌≡◌, refl, ap, ◌∙◌, List, [], ◌∷◌, ◌++◌, length, take, drop, set, ltb,
  true, false, arith, length-append,
}
use websh.Base.Parts.{suc_plus, zero_plus, drop-more}
use websh.Edit.Buffer.{line_at}

pub line_at-more :
    (n : ℕ) (xs ys : List (List ℕ)) → line_at (xs ++ ys) (length xs + n) ≡ line_at ys n
line_at-more n [] ys = ap (line_at ys) (zero_plus n)
line_at-more n (x ∷ xs) ys =
    ap (line_at (x ∷ xs ++ ys)) (suc_plus (length xs) n) ∙ line_at-more n xs ys

pub line_at-length :
    (xs : List (List ℕ)) (l : List ℕ) (ys : List (List ℕ)) → line_at (xs ++ l ∷ ys) (length xs) ≡ l
line_at-length [] l ys = refl
line_at-length (x ∷ xs) l ys = line_at-length xs l ys

pub set-length {ℓ} :
    {A : Type ℓ} (xs : List A) (x y : A) (ys : List A)
    → set (xs ++ x ∷ ys) (length xs) y ≡ xs ++ y ∷ ys
set-length [] x y ys = refl
set-length (z ∷ xs) x y ys = ap (◌∷◌ z) (set-length xs x y ys)

pub length-last {ℓ} : {A : Type ℓ} (xs : List A) (x : A) → length (xs ++ x ∷ []) ≡ suc (length xs)
length-last xs x = omega (arith, length-append xs (x ∷ []))

pub ltb-suc : (n : ℕ) → ltb 0 (suc n) ≡ true
ltb-suc n = ground arith

pub ltb_self : (n : ℕ) → ltb n n ≡ false
ltb_self n = ground arith

pub suc_minus_one : (n : ℕ) → suc n - 1 ≡ n
suc_minus_one n = omega arith

pub drop-suc {ℓ} :
    {A : Type ℓ} (xs : List A) (y : A) (ys : List A) → drop (suc (length xs)) (xs ++ y ∷ ys) ≡ ys
drop-suc [] y ys = refl
drop-suc (x ∷ xs) y ys = drop-suc xs y ys

pub drop-suc_plus {ℓ} :
    {A : Type ℓ} (n : ℕ) (xs : List A) (y : A) (ys : List A)
    → drop (suc (length xs) + n) (xs ++ y ∷ ys) ≡ drop n ys
drop-suc_plus n xs y ys =
    let e : suc (length xs) + n ≡ length xs + suc n = omega arith in
    ap (λ k. drop k (xs ++ y ∷ ys)) e ∙ drop-more (suc n) xs (y ∷ ys)

pub take-suc {ℓ} :
    {A : Type ℓ} (xs : List A) (y : A) (ys : List A)
    → take (suc (length xs)) (xs ++ y ∷ ys) ≡ xs ++ y ∷ []
take-suc [] y ys = refl
take-suc (x ∷ xs) y ys = ap (◌∷◌ x) (take-suc xs y ys)

pub line_at-suc :
    (xs : List (List ℕ)) (l : List ℕ) (ys : List (List ℕ))
    → line_at (xs ++ l ∷ ys) (suc (length xs)) ≡ line_at ys 0
line_at-suc [] l ys = refl
line_at-suc (x ∷ xs) l ys = line_at-suc xs l ys

pub ltb-inside {ℓ} :
    {A : Type ℓ} (n : ℕ) (xs ys : List A)
    → n < length ys
    → ltb (length xs + n) (length (xs ++ ys)) ≡ true
ltb-inside n xs ys h = ground (arith, length-append xs ys)

pub ltb-outside {ℓ} :
    {A : Type ℓ} (n : ℕ) (xs ys : List A)
    → length ys ≤ n
    → ltb (length xs + n) (length (xs ++ ys)) ≡ false
ltb-outside n xs ys h = ground (arith, length-append xs ys)

pub ltb-inside_first {ℓ} :
    {A : Type ℓ} (xs : List A) (y : A) (ys : List A)
    → ltb (length xs) (length (xs ++ y ∷ ys)) ≡ true
ltb-inside_first xs y ys = ground (arith, length-append xs (y ∷ ys))

pub ltb-outside_first {ℓ} : {A : Type ℓ} (xs : List A) → ltb (length xs) (length (xs ++ [])) ≡ false
ltb-outside_first xs = ground (arith, length-append xs [])
