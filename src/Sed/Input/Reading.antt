-- ===== src/Sed/Input/Reading.antt =====
-- What `newInput` and `read` hand out over a whole input.
use websh.Base.{
  ℕ, zero, suc, ◌+◌, ◌≡◌, refl, ◌∙◌, false, List, [], ◌∷◌, append-nil, arith, Bytes, length,
}
use websh.Sed.Input.{Input, new_input, read}
use websh.Sed.Input.Lines.{
  Line, text_lines, all_lines, join_lines, join_lines-text_lines, remaining, read-has_next,
  new_input-remaining, new_input-line,
}

-- `n` calls of `read`: the lines handed out, and the input behind them.
unfoldable pub read_times : ℕ → Input → List Line × Input
read_times zero in' = ([], in')
read_times (suc n) in' =
    let r = read in' in let later = read_times n r.1 in ((r.0.0, r.0.1) ∷ later.0, later.1)

has_next-remaining : (in' : Input) → remaining in' ≡ [] → in'.has_next ≡ false
has_next-remaining in' h = ground arith

read_times-remaining :
    (ls : List Line) (in' : Input)
    → remaining in' ≡ ls
    → let r = read_times (length ls) in' in
      (r.0 ≡ ls) × (r.1.has_next ≡ false) × (r.1.line ≡ in'.line + length ls)
unfolding read_times
read_times-remaining [] in' h = (refl, has_next-remaining in' h, omega arith)
read_times-remaining ((l, nl) ∷ ls) in' h =
    let (e, later, n) = read-has_next in' l nl ls h in
    let (e', done, n') = read_times-remaining ls (read in').1 later in
    (ground arith, done, omega arith)

-- Over any readers, as many calls of `read` as the readers have lines hand out those lines in
-- order, each with whether it had a newline, a reader's last line ending with the reader. After
-- them `hasNext` is false, which is how `$` knows the last line, and the line counter is their
-- number.
pub read_times-new_input :
    (rs : List Bytes)
    → let ls = all_lines rs in
      let r = read_times (length ls) (new_input rs) in
      (r.0 ≡ ls) × (r.1.has_next ≡ false) × (r.1.line ≡ length ls)
read_times-new_input rs =
    let (e, done, n) =
      read_times-remaining (all_lines rs) (new_input rs) (new_input-remaining rs) in
    (e, done, omega (arith, new_input-line rs))

-- The lines read from one reader, joined with the newlines that they are said to have had, are the
-- bytes of the reader.
pub join_lines-read_times :
    (s : Bytes) → join_lines (read_times (length (text_lines s)) (new_input (s ∷ []))).0 ≡ s
join_lines-read_times s =
    rw
      (read_times-remaining (text_lines s) (new_input (s ∷ []))
        (new_input-remaining (s ∷ []) ∙ append-nil (text_lines s))).0
      (join_lines-text_lines s)
