-- ===== src/Sed/Parse/Progress.antt =====
-- The loop of `parse` ends: every round leaves less of the script than it was given.
use mathlib.Core.Option
use websh.Base.{
  ℕ, zero, suc, ◌≤◌, ◌<◌, ◌≡◌, ◌≢◌, refl, Bool, true, false, ◌||◌, [], ◌∷◌, arith, ◌==◌,
  if◌then◌else◌, Bytes, Bool-cases, inl, inr, Option, some, none, length, drop,
}
use websh.Base.Result.{Result, ok, err, ◌>>=◌, plain}
use websh.Sed.Types.{Address, Command, is_none}
use websh.Sed.Parse.Cursor.{Parser, skip_space, errorf}
use websh.Sed.Parse.Addresses.{address}
use websh.Sed.Parse.Arguments.{command_argument}
use websh.Sed.Parse.Cursor.Progress.{
  AtMost, AtMost-mono, AtMost-bind, AtMost-if, AtMost-ok, AtMost-err, skip_space-le, drop-le,
}
use websh.Sed.Parse.Addresses.Progress.{address-AtMost}
use websh.Sed.Parse.Arguments.Progress.{command_argument-AtMost}
use websh.Sed.Parse.{
  skip_separators, skip_comment, negations, second_address, named_command, parse_command, Blocks,
  add_command, Round, over, further, added, parsed, round_at, parse_round, parse_loop, finish_parse,
  parse,
}

skip_separators-le : (s : Bytes) → length (skip_separators s) ≤ length s
unfolding skip_separators
skip_separators-le [] = omega arith
skip_separators-le (c ∷ s) = ground (arith, skip_separators-le s)

skip_comment-le : (s : Bytes) → length (skip_comment s) ≤ length s
unfolding skip_comment
skip_comment-le [] = omega arith
skip_comment-le (c ∷ s) = ground (arith, skip_comment-le s)

skip_comment-lt :
    (c : ℕ) (s : Bytes) → (c == b'#') ≡ true → length (skip_comment (c ∷ s)) ≤ length s
unfolding skip_comment
skip_comment-lt c s h = ground (arith, skip_comment-le s)

negations-le : (b : Bool) (s : Bytes) → length (negations b s).1 ≤ length s
unfolding negations
negations-le b [] = omega arith
negations-le b (c ∷ s) = ground (arith, negations-le (b || c == b'!') s)

second_address-AtMost :
    (p : Parser) (a : Address) (s : Bytes) → AtMost (length s) (second_address p a s)
unfolding second_address AtMost
second_address-AtMost p a s =
    let n = length s in
    let all : n ≤ n = omega arith in
    let r = skip_space (drop 1 s) in
    let le : length r ≤ n = omega (arith, skip_space-le (drop 1 s), drop-le s) in
    let read =
      AtMost-bind (address p false r)
        (λ a2. if is_none a2.0.kind then errorf p a2.1 (plain "unexpected `,'") else ok a2)
        (length r) n (address-AtMost p false r)
        (λ a2 h.
          let k : length a2.1 ≤ n = omega arith in search (AtMost-if, AtMost-ok, AtMost-err)) in
    search (AtMost-if, AtMost-ok, AtMost-err)

named_command-AtMost :
    (p : Parser) (cmd : Command) (s : Bytes) (n : ℕ)
    → length s ≤ suc n
    → AtMost n (named_command p cmd s)
unfolding named_command
named_command-AtMost p cmd [] n h = AtMost-err _ _ _
named_command-AtMost p cmd (c ∷ s) n h =
    AtMost-mono (command_argument p (record cmd { name = c }) s) (length s) n (omega arith)
      (command_argument-AtMost p (record cmd { name = c }) s)

parse_command-AtMost :
    (p : Parser) (s : Bytes) (n : ℕ) → length s ≤ suc n → AtMost n (parse_command p s)
unfolding parse_command
parse_command-AtMost p s n h =
    AtMost-bind (address p true s) _ (length s) n (address-AtMost p true s) (λ a1 k.
      AtMost-bind (second_address p a1.0 a1.1) _ (length a1.1) n (second_address-AtMost p a1.0 a1.1)
        (λ a2 m.
          let le : length (negations false a2.1).1 ≤ suc n =
            omega (arith, negations-le false a2.1) in
          search (AtMost-if, AtMost-err, named_command-AtMost)))

-- What goes on has less left.
abbrev Shrinks : ℕ → Round → Type 0
Shrinks n (over r) = Unit
Shrinks n (further b s) = length s < n

module _ (p : Parser) (b : Blocks) where
  added-Shrinks : (n : ℕ) (s : Bytes) (m : Result Blocks) → length s < n → Shrinks n (added s m)
  unfolding added
  added-Shrinks n s (ok b') h = h
  added-Shrinks n s (err e) h = tt

  parsed-Shrinks :
      (n k : ℕ) (m : Result (Command × Bytes)) → k < n → AtMost k m → Shrinks n (parsed p b m)
  unfolding parsed AtMost
  parsed-Shrinks n k (ok r) lt h = added-Shrinks n r.1 (add_command p b r.0 r.1) (omega arith)
  parsed-Shrinks n k (err e) lt h = tt

  round_at-Shrinks : (n : ℕ) (s : Bytes) → length s ≤ n → Shrinks n (round_at p b s)
  unfolding round_at
  round_at-Shrinks n [] h = tt
  round_at-Shrinks n (c ∷ s) h = elim (Bool-cases (c == b'#')) [
    | inl e ↦ rw e (omega (arith, skip_comment-lt c s e))
    | inr e ↦ rw e (
        parsed-Shrinks n (length s) (parse_command p (c ∷ s)) (omega arith)
          (parse_command-AtMost p (c ∷ s) (length s) (omega arith)))
  ]

  pub parse_round-Shrinks : (n : ℕ) (s : Bytes) → length s ≤ n → Shrinks n (parse_round p b s)
  unfolding parse_round
  parse_round-Shrinks n s h =
      round_at-Shrinks n (skip_separators s) (omega (arith, skip_separators-le s))

parse_loop-total :
    (p : Parser) (fuel : ℕ) (b : Blocks) (s : Bytes)
    → length s < fuel
    → parse_loop fuel p b s ≢ none
unfolding parse_loop
parse_loop-total p zero b s h = absurd (omega arith)
parse_loop-total p (suc fuel) b s h =
    at_round (parse_round p b s) (parse_round-Shrinks p b fuel s (omega arith))
      (parse_loop-total p fuel)
  where
    at_round :
        (r : Round)
        → Shrinks fuel r
        → ((b' : Blocks) (s' : Bytes) → length s' < fuel → parse_loop fuel p b' s' ≢ none)
        → (elim r as (λ _. Option (Result Blocks)) [
          | over m ↦ some m
          | further b' s' ↦ parse_loop fuel p b' s'
        ])
          ≢ none
    at_round (over m) k ih = cc
    at_round (further b' s') k ih = ih b' s' (omega arith)

-- Parsing ends for every script, in either dialect and whatever expressions compile: the fuel, one
-- more than the bytes of the script, suffices.
pub parse-ne-none :
    (compiles : Bytes → Bool) (src : Bytes) (ere : Bool) → parse compiles src ere ≢ none
unfolding parse
parse-ne-none compiles src ere = kept (parse_loop (suc (length src)) p start src) total
  where
    p : Parser
    p = record { total = length src; ere = ere; compiles = compiles }

    start : Blocks
    start = record { cmds = []; opened = [] }

    total : parse_loop (suc (length src)) p start src ≢ none
    total = parse_loop-total p (suc (length src)) start src (omega arith)

    kept : (o : Option (Result Blocks)) → o ≢ none → Option.map (λ r. r >>= finish_parse) o ≢ none
    kept none h = absurd (h refl)
    kept (some r) h = cc
