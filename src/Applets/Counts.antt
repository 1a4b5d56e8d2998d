-- ===== src/Applets/Counts.antt =====
-- The count of `head` and `tail` is never negative.
use websh.Base.{
  ℕ, ◌≡◌, ◌≢◌, refl, Bool, true, false, Option, none, some, List, [], ◌∷◌, arith, Bytes, codes,
  equal, one_of,
}
use websh.Base.Result.{Result, ok, err}
use websh.Base.Int.{ℤ, pos, negsuc}
use websh.Base.Decimal.{atoi, all_digits}
use websh.Applets.{
  Handler, Done, count_of, count_args, parse_flags, Argument, argument, flag_letters, end_mark,
  plain_argument, head_tail_count, read_lines,
}
use websh.Applets.Lines.{counted, head_lines, tail_lines, run_head, run_tail}

-- Arguments none of which `strconv.Atoi` reads as a negative number.
data NoneNegative : List Bytes → Type 0 where
  no_more : NoneNegative []
  one_more :
      {a : Bytes} {rest : List Bytes}
      → ((n : ℕ) → atoi a ≢ some (negsuc n))
      → NoneNegative rest
      → NoneNegative (a ∷ rest)

count_of-none : (a : Bytes) (n : ℕ) → count_of a ≡ none → atoi a ≢ some (negsuc n)
unfolding all_digits atoi count_of equal
count_of-none [] n h k = cc
count_of-none (c ∷ []) n h k = ground arith
count_of-none (c ∷ d ∷ s) n h k = ground arith

count_of-digits : (a num : Bytes) → count_of a ≡ some num → all_digits num ≡ true
unfolding count_of equal
count_of-digits [] num h = cc
count_of-digits (c ∷ s) num h = ground arith

atoi-digits : (s : Bytes) (n : ℕ) → all_digits s ≡ true → atoi s ≢ some (negsuc n)
unfolding all_digits atoi
atoi-digits [] n h k = cc
atoi-digits (c ∷ s) n h k = ground arith

count_args-NoneNegative : (args : List Bytes) → NoneNegative (count_args args)
unfolding atoi count_args
count_args-NoneNegative [] = no_more
count_args-NoneNegative (a ∷ rest) = go (count_of a) refl (count_args-NoneNegative rest)
  where
    go :
        (o : Option Bytes)
        → count_of a ≡ o
        → NoneNegative (count_args rest)
        → NoneNegative (count_args (a ∷ rest))
    go none e h = rw (count_args, e) (one_more (λ n. count_of-none a n e) h)
    go (some num) e h =
        rw (count_args, e)
          (one_more (λ n k. cc) (one_more (λ n. atoi-digits num n (count_of-digits a num e)) h))

parse_flags-NoneNegative :
    {args : List Bytes} → NoneNegative args → NoneNegative (parse_flags args).1
unfolding parse_flags
parse_flags-NoneNegative no_more = no_more
parse_flags-NoneNegative (one_more {a} {rest} f h) =
    go (argument a) refl (parse_flags-NoneNegative h)
  where
    go :
        (o : Argument)
        → argument a ≡ o
        → NoneNegative (parse_flags rest).1
        → NoneNegative (parse_flags (a ∷ rest)).1
    go (flag_letters s) e k = rw (parse_flags, e) k
    go end_mark e k = rw (parse_flags, e) h
    go plain_argument e k = rw (parse_flags, e) (one_more f h)

head_tail_count-pos :
    (flags : Bytes) {rest : List Bytes}
    → NoneNegative rest
    → (n : ℕ) × ((head_tail_count flags rest).0 ≡ pos n)
unfolding head_tail_count
head_tail_count-pos flags no_more = (10, refl)
head_tail_count-pos flags (one_more {a} {rest} f h) = go (one_of flags b'n') (atoi a) refl refl
  where
    go :
        (b : Bool) (o : Option ℤ)
        → one_of flags b'n' ≡ b
        → atoi a ≡ o
        → (n : ℕ) × ((head_tail_count flags (a ∷ rest)).0 ≡ pos n)
    go false o e k = (10, rw e refl)
    go true none e k = (10, rw (e, k) refl)
    go true (some (pos n)) e k = (n, rw (e, k) refl)
    go true (some (negsuc n)) e k = absurd (f n k)

counted_args-pos :
    (args : List Bytes)
    → let f = parse_flags (count_args args) in (n : ℕ) × ((head_tail_count f.0 f.1).0 ≡ pos n)
counted_args-pos args =
    head_tail_count-pos (parse_flags (count_args args)).0
      (parse_flags-NoneNegative (count_args-NoneNegative args))

-- A run that gives a result, and does not panic.
pub data Returns : Option Done → Type 0 where
  returned : (d : Done) → Returns (some d)

-- Whatever the arguments and the input, `head` and `tail` return: neither slices its lines with a
-- negative count.
pub counts-Returns :
    (h : Handler) (args : List Bytes) → Returns (run_head h args) × Returns (run_tail h args)
unfolding head_lines run_head run_tail tail_lines
counts-Returns h args =
    let f = parse_flags (count_args args) in
    let c = head_tail_count f.0 f.1 in
    go c.0 (counted_args-pos args).0 (counted_args-pos args).1 (read_lines h c.1)
  where
    go :
        (z : ℤ) (n : ℕ)
        → z ≡ pos n
        → (r : Result (List Bytes))
        → Returns (counted (codes "head") head_lines z r)
          × Returns (counted (codes "tail") tail_lines z r)
    go z n e (err x) = (returned _, returned _)
    go z n e (ok ls) = rw e (returned _, returned _)
