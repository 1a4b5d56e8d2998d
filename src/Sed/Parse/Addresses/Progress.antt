-- ===== src/Sed/Parse/Addresses/Progress.antt =====
-- What `address` leaves: at most what it was given.
use websh.Base.{ℕ, suc, ◌≤◌, Bool, false, ◌||◌, [], ◌∷◌, arith, ◌==◌, Bytes, length, drop}
use websh.Base.Int.{ℤ}
use websh.Base.Result.{◌>>=◌}
use websh.Sed.Parse.Cursor.{Parser, number, delimited}
use websh.Sed.Parse.Addresses.{
  address, address_number, address_flags, address_compile, address_custom,
}
use websh.Sed.Parse.Cursor.Progress.{
  AtMost, AtMost-mono, AtMost-bind, AtMost-if, drop-le, number-le, delimited-AtMost, AtMost-ok,
  AtMost-err,
}

address_flags-le : (i m : Bool) (s : Bytes) → length (address_flags i m s).2 ≤ length s
unfolding address_flags
address_flags-le i m [] = omega arith
address_flags-le i m (c ∷ s) = ground (arith, address_flags-le (i || c == b'I') (m || c == b'M') s)

address_number-AtMost :
    (p : Parser) (first : Bool) (n : ℤ) (s : Bytes)
    → AtMost (length s) (address_number p first (n, s))
unfolding address_number AtMost
address_number-AtMost p first n s = ground (arith, number-le (drop 1 s), drop-le s)

address_compile-AtMost :
    (p : Parser) (d : ℕ) (raw s : Bytes) → AtMost (length s) (address_compile p d (raw, s))
unfolding address_compile AtMost
address_compile-AtMost p d raw s = ground (arith, address_flags-le false false s)

address_regex-AtMost :
    (p : Parser) (d : ℕ) (s : Bytes) → AtMost (length s) (delimited p d s >>= address_compile p d)
address_regex-AtMost p d s =
    AtMost-bind (delimited p d s) (address_compile p d) (length s) (length s)
      (delimited-AtMost p d s)
      (λ r h.
        AtMost-mono (address_compile p d r) (length r.1) (length s) h
          (address_compile-AtMost p d r.0 r.1))

address_custom-AtMost : (p : Parser) (s : Bytes) → AtMost (length s) (address_custom p s)
unfolding address_custom
address_custom-AtMost p [] = AtMost-err _ _ _
address_custom-AtMost p (d ∷ s) =
    AtMost-mono (delimited p d s >>= address_compile p d) (length s) (suc (length s)) (omega arith)
      (address_regex-AtMost p d s)

pub address-AtMost : (p : Parser) (first : Bool) (s : Bytes) → AtMost (length s) (address p first s)
unfolding address
address-AtMost p first s =
    let n = length s in
    let counted : length (number (drop 1 s)).1 ≤ n =
      omega (arith, number-le (drop 1 s), drop-le s) in
    let all : n ≤ n = omega arith in
    let numbered =
      AtMost-mono (address_number p first (number s)) _ n (number-le s)
        (address_number-AtMost p first (number s).0 (number s).1) in
    let slashed =
      AtMost-mono (delimited p b'/' (drop 1 s) >>= address_compile p b'/') _ n (drop-le s)
        (address_regex-AtMost p b'/' (drop 1 s)) in
    let custom =
      AtMost-mono (address_custom p (drop 1 s)) _ n (drop-le s)
        (address_custom-AtMost p (drop 1 s)) in
    search (AtMost-if, AtMost-ok, AtMost-err, drop-le) depth 10
