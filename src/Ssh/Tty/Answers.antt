-- ===== src/Ssh/Tty/Answers.antt =====
-- The question of `yesNo` is answered, or the input ends.
use websh.Base.{
  ℕ, zero, suc, ◌≤◌, ◌<◌, ◌≡◌, ◌≢◌, refl, Bool, true, Option, none, some, [], ◌∷◌, ◌++◌, Bytes,
  arith, length, codes,
}
use websh.Base.Result.{Result, ok, err}
use websh.Ssh.Library.{Library}
use websh.Ssh.Tty.{
  End, Tty, with_returns, print, Typed, more, over, type_byte, line_at_end, read_loop, read_line,
  answer_of, yes_no,
}

module _ (echo : Bool) where
  read_loop-le :
      (line input : Bytes) (e : End) (out : Bytes)
      → length (read_loop echo line input e out).1.input ≤ length input
  unfolding read_loop
  read_loop-le line [] e out = omega arith
  read_loop-le line (c ∷ input) e out = go (type_byte echo line c) (λ l o. read_loop-le l input e o)
    where
      go :
          (r : Typed)
          → ((l o : Bytes) → length (read_loop echo l input e o).1.input ≤ length input)
          → length
              (elim r as (λ _. Result Bytes × Tty) [
                | more s line' ↦ read_loop echo line' input e (out ++ s)
                | over s q ↦ (q, record { input = input; end_of = e; output = out ++ s })
              ]).1.input
            ≤ length (c ∷ input)
      go (more s line') le = omega (arith, le line' (out ++ s))
      go (over s q) le = omega arith

  -- A line that is read took a byte.
  read_loop-lt :
      (input : Bytes) (e : End) (out : Bytes) {l : Bytes}
      → (read_loop echo [] input e out).0 ≡ ok l
      → length (read_loop echo [] input e out).1.input < length input
  unfolding read_loop line_at_end
  read_loop-lt [] e out h = absurd (cc)
  read_loop-lt (c ∷ input) e out h = go (type_byte echo [] c)
    where
      go :
          (r : Typed)
          → length
              (elim r as (λ _. Result Bytes × Tty) [
                | more s line' ↦ read_loop echo line' input e (out ++ s)
                | over s q ↦ (q, record { input = input; end_of = e; output = out ++ s })
              ]).1.input
            < length (c ∷ input)
      go (more s line') = omega (arith, read_loop-le line' input e (out ++ s))
      go (over s q) = omega arith

read_line-lt :
    (prompt : Bytes) (t : Tty) {l : Bytes}
    → (read_line prompt true t).0 ≡ ok l
    → length (read_line prompt true t).1.input < length t.input
unfolding read_line print
read_line-lt prompt t h = read_loop-lt true t.input t.end_of (t.output ++ with_returns prompt) h

abbrev again : Bytes
again = codes "Please type 'yes' or 'no': "

-- Whatever is typed, and however the input ends, `yesNo` comes to an answer or an error: it asks
-- at most once for each byte that is typed, and once more.
pub yes_no-ne-none :
    (fuel : ℕ) (l : Library) (prompt : Bytes) (t : Tty)
    → length t.input < fuel
    → yes_no fuel l prompt t ≢ none
unfolding yes_no
yes_no-ne-none zero l prompt t h = absurd (omega arith)
yes_no-ne-none (suc fuel) l prompt t h =
    go (read_line prompt true t).0 refl (yes_no-ne-none fuel l again (read_line prompt true t).1)
  where
    go :
        (r : Result Bytes)
        → (read_line prompt true t).0 ≡ r
        → (length (read_line prompt true t).1.input < fuel
            → yes_no fuel l again (read_line prompt true t).1 ≢ none)
        → yes_no (suc fuel) l prompt t ≢ none
    go (err e) k rest = rw (yes_no, k) (λ q. absurd (ground (arith, q)))
    go (ok line) k rest =
        let shorter = read_line-lt prompt t {l = line} k in
        rw (yes_no, k) (answered (answer_of l line) (rest (omega (arith, shorter, h))))
      where
        answered :
            (o : Option Bool)
            → yes_no fuel l again (read_line prompt true t).1 ≢ none
            → elim o as (λ _. Option (Result Bool × Tty)) [
              | some b ↦ some (ok b, (read_line prompt true t).1)
              | none ↦ yes_no fuel l again (read_line prompt true t).1
            ]
              ≢ none
        answered (some b) n q = absurd (ground (arith, q))
        answered none n q = n q
