-- ===== src/Sed/Parse/Cursor/Progress.antt =====
-- What the cursor functions leave: never more of the script than they were given.
use websh.Base.{
  ℕ, ◌+◌, ◌-◌, ◌*◌, ◌%◌, ◌≤◌, ◌≡◌, Bool, true, false, not, ◌&&◌, [], ◌∷◌, ◌++◌, arith, ◌==◌,
  if◌then◌else◌, Bytes, Bool-cases, inl, inr, length, drop, one_of, codes,
}
use websh.Base.Int.{int_modulus}
use websh.Base.Result.{Result, ok, err, Fault, plain, ◌>>=◌}
use websh.Sed.Parse.Cursor.{
  Parser, skip_space, errorf, number_loop, number, delimited_loop, delimited, to_end_loop, to_end,
  end_command,
}

-- A successful result leaves at most `n` bytes.
unfoldable pub AtMost {ℓ} : {A : Type ℓ} → ℕ → Result (A × Bytes) → Type 0
AtMost n (ok r) = length r.1 ≤ n
AtMost n (err _) = Unit

unfoldable pub EndsAtMost : ℕ → Result Bytes → Type 0
EndsAtMost n (ok r) = length r ≤ n
EndsAtMost n (err _) = Unit

module _ {ℓ κ} {A : Type ℓ} {B : Type κ} where
  pub AtMost-bind :
      (m : Result (A × Bytes)) (f : A × Bytes → Result (B × Bytes)) (k n : ℕ)
      → AtMost k m
      → ((r : A × Bytes) → length r.1 ≤ k → AtMost n (f r))
      → AtMost n (m >>= f)
  unfolding AtMost
  AtMost-bind (ok r) f k n h g = g r h
  AtMost-bind (err e) f k n h g = tt

pub AtMost-mono {ℓ} :
    {A : Type ℓ} (m : Result (A × Bytes)) (k n : ℕ) → k ≤ n → AtMost k m → AtMost n m
unfolding AtMost
AtMost-mono (ok r) k n le h = omega arith
AtMost-mono (err e) k n le h = tt

pub AtMost-end {ℓ} :
    {A : Type ℓ} (m : Result Bytes) (f : Bytes → A) (k n : ℕ)
    → k ≤ n
    → EndsAtMost k m
    → AtMost n (m >>= λ r. ok (f r, r))
unfolding AtMost EndsAtMost
AtMost-end (ok r) f k n le h = omega arith
AtMost-end (err e) f k n le h = tt

pub AtMost-if {ℓ} :
    {A : Type ℓ} (n : ℕ) (b : Bool) (x y : Result (A × Bytes))
    → AtMost n x
    → AtMost n y
    → AtMost n (if b then x else y)
AtMost-if n true x y h k = h
AtMost-if n false x y h k = k

pub AtMost-ok {ℓ} :
    {A : Type ℓ} (n : ℕ) (a : A) (rest : Bytes) → length rest ≤ n → AtMost n (ok (a, rest))
unfolding AtMost
AtMost-ok n a rest h = h

pub AtMost-err {ℓ} : (A : Type ℓ) (n : ℕ) (e : Fault) → AtMost {A = A} n (err e)
unfolding AtMost
AtMost-err A n e = tt

pub AtMost-elim {ℓ} :
    {A : Type ℓ} (n : ℕ) (m : Result (A × Bytes)) {a : A} {rest : Bytes}
    → AtMost n m
    → m ≡ ok (a, rest)
    → length rest ≤ n
unfolding AtMost
AtMost-elim n (ok r) h e = ground arith
AtMost-elim n (err f) h e = absurd (ground arith)

pub skip_space-le : (s : Bytes) → length (skip_space s) ≤ length s
unfolding skip_space
skip_space-le [] = omega arith
skip_space-le (c ∷ s) = ground (arith, skip_space-le s)

pub drop-le : (s : Bytes) → length (drop 1 s) ≤ length s
drop-le [] = omega arith
drop-le (c ∷ s) = omega arith

number_loop-le : (n : ℕ) (s : Bytes) → length (number_loop n s).1 ≤ length s
unfolding number_loop
number_loop-le n [] = omega arith
number_loop-le n (c ∷ s) = ground (arith, number_loop-le ((n * 10 + (c - b'0')) % int_modulus) s)

pub number-le : (s : Bytes) → length (number s).1 ≤ length s
unfolding number
number-le s = number_loop-le 0 s

to_end_loop-le : (b : Bool) (s : Bytes) → length (to_end_loop b s).1 ≤ length s
unfolding to_end_loop
to_end_loop-le b [] = omega arith
to_end_loop-le b (c ∷ s) = ground (arith, to_end_loop-le b s)

pub to_end-le : (b : Bool) (s : Bytes) → length (to_end b s).1 ≤ length s
unfolding to_end
to_end-le b s = omega (arith, to_end_loop-le b (skip_space s), skip_space-le s)

delimited_loop-AtMost :
    (p : Parser) (d : ℕ) (s out : Bytes) → AtMost (length s) (delimited_loop p d out s)
unfolding delimited_loop AtMost
delimited_loop-AtMost p d [] out = tt
delimited_loop-AtMost p d (c ∷ []) out = ground arith
delimited_loop-AtMost p d (c ∷ c' ∷ s) out =
    let esc : Bytes = if c' == b'\n' then b'\n' ∷ [] else b'\\' ∷ c' ∷ [] in
    let skipped =
      AtMost-mono (delimited_loop p d (out ++ esc) s) (length s) (length (c ∷ c' ∷ s)) (omega arith)
        (delimited_loop-AtMost p d s (out ++ esc)) in
    let further =
      AtMost-mono (delimited_loop p d (out ++ c ∷ []) (c' ∷ s)) (length (c' ∷ s))
        (length (c ∷ c' ∷ s)) (omega arith) (delimited_loop-AtMost p d (c' ∷ s) (out ++ c ∷ [])) in
    elim (Bool-cases (c == b'\\')) [
      | inl e ↦ rw e skipped
      | inr e ↦ rw e (elim (Bool-cases (c == d)) [
        | inl k ↦ rw k (omega arith)
        | inr k ↦ rw k (elim (Bool-cases (c == b'\n' && not (d == b'\n'))) [
          | inl m ↦ rw m tt
          | inr m ↦ rw m further
        ])
      ])
    ]

pub delimited-AtMost : (p : Parser) (d : ℕ) (s : Bytes) → AtMost (length s) (delimited p d s)
unfolding delimited
delimited-AtMost p d s = delimited_loop-AtMost p d s []

end_at :
    (p : Parser) (s : Bytes) (n : ℕ) → length (skip_space s) ≤ n → EndsAtMost n (end_command p s)
unfolding end_command EndsAtMost
end_at p s n h = go (skip_space s) h
  where
    go :
        (r : Bytes)
        → length r ≤ n
        → EndsAtMost n (elim r [
          | [] ↦ ok []
          | c ∷ s' ↦
              if one_of (codes ";\n}#") c
              then ok (c ∷ s')
              else errorf p (c ∷ s') (plain "extra characters after command")
        ])
    go [] h = omega arith
    go (c ∷ s') h = ground arith

pub end_command-EndsAtMost : (p : Parser) (s : Bytes) → EndsAtMost (length s) (end_command p s)
end_command-EndsAtMost p s = end_at p s (length s) (skip_space-le s)
