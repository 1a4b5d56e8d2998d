-- ===== src/Sed/Run/Cat.antt =====
-- The empty script, which copies its input.
use mathlib.Core.Option
use websh.Base.{
  ℕ, zero, suc, ◌<◌, ◌≡◌, refl, ap, ◌∙◌, Bool, true, false, not, inl, inr, Bool-cases, ◌==◌, List,
  [], ◌∷◌, ◌++◌, append-nil, arith, if◌then◌else◌, some, Bytes, length,
}
use websh.Base.Result.{ok}
use websh.Base.Int.{pos}
use websh.Sed.Host.{Host}
use websh.Sed.Input.{read}
use websh.Sed.Input.Lines.{
  Line, text_lines, all_lines, remaining, read-has_next, prepend, new_input-remaining,
}
use websh.Sed.Output.Text.{Accepts, shown, line-Accepts, render, text_after, text_after-line}
use websh.Sed.State.{Program, State, write_all, flush_appends, autoprint}
use websh.Sed.Exec.{exec_from}
use websh.Sed.Run.{begin_cycle, end_cycle, run_loop, done, start_state, end_run, run}

-- A run that copies: it goes on with an empty script, and nothing is queued or has failed.
record IsCopying (st : State) : Type 0 where
  empty : st.p.cmds ≡ []
  loud : st.p.quiet ≡ false
  queue : st.append_q ≡ []
  sound : st.out.failed ≡ false
  running : st.quit ≡ false

end_run-copied :
    {st : State} {p : Program} {text : Bytes}
    → IsCopying st
    → st.p ≡ p
    → st.out.w ≡ text
    → end_run (st, ok tt) ≡ (p, text, done)
unfolding end_run
end_run-copied c e w = ground arith

text_after-start :
    (ls : List Line)
    → text_after (record { w = []; missing_nl = false; failed = false }) ls ≡ render ls
text_after-start [] = refl
text_after-start (x ∷ ls) = refl

module _ (h : Host) (accepts : Accepts h) where
  -- The state behind one cycle, the line `(l, nl)` read.
  abbrev copied : State → Bytes → Bool → State
  copied st l nl = record st {
    input = (read st.input).1;
    ps = l;
    nl = nl;
    replaced = false;
    out = record {
      w = (shown st.out ++ l) ++ (if nl then b'\n' ∷ [] else []);
      missing_nl = not nl;
      failed = false;
    };
    append_q = [];
  }

  run_loop-line :
      (fuel steps : ℕ) (st : State) (l : Bytes) (nl : Bool) (ls : List Line)
      → IsCopying st
      → remaining st.input ≡ (l, nl) ∷ ls
      → run_loop (suc fuel) (suc steps) h false st
        ≡ run_loop fuel (suc steps) h false (copied st l nl)
  unfolding run_loop begin_cycle end_cycle exec_from autoprint flush_appends write_all
  run_loop-line fuel steps st l nl ls c r = ground (
    arith,
    (read-has_next st.input l nl ls r).0,
    line-Accepts h accepts st.out l nl c.sound,
    c.empty,
    c.loud,
    c.queue,
  )

  run_loop-end :
      (fuel steps : ℕ) (st : State)
      → remaining st.input ≡ []
      → run_loop (suc fuel) steps h false st ≡ some (st, ok tt)
  unfolding run_loop begin_cycle read
  run_loop-end fuel steps st r = ground arith

  run_loop-copies :
      (ls : List Line) (fuel steps : ℕ) (st : State)
      → length ls < fuel
      → IsCopying st
      → remaining st.input ≡ ls
      → (st' : State) × (run_loop fuel (suc steps) h false st ≡ some (st', ok tt))
        × (st'.out.w ≡ text_after st.out ls)
        × IsCopying st'
        × (st'.p ≡ st.p)
  run_loop-copies ls zero steps st f c r = absurd (omega arith)
  run_loop-copies [] (suc fuel) steps st f c r =
      (st, run_loop-end fuel (suc steps) st r, refl, c, refl)
  run_loop-copies ((l, nl) ∷ ls) (suc fuel) steps st f c r =
      let next = copied st l nl in
      let next-IsCopying : IsCopying next = record {
        empty = c.empty;
        loud = c.loud;
        queue = refl;
        sound = refl;
        running = c.running;
      } in
      let (st', e, t, k, p) =
        run_loop-copies ls fuel steps next (omega arith) next-IsCopying
          (read-has_next st.input l nl ls r).1 in
      (st', run_loop-line fuel steps st l nl ls c r ∙ e, t ∙ text_after-line st.out l nl ls, k, p)

  -- Where every write succeeds, a program with no command and without -n, not quiet, ends normally
  -- with any fuel above the number of lines, is left as it was but for its exit code, which is
  -- 0, and has written all lines of its inputs in order, each but the last ending in a newline,
  -- and the last as it was found.
  pub run_empty :
      (fuel steps : ℕ) (p : Program) (rs : List Bytes)
      → p.cmds ≡ []
      → p.quiet ≡ false
      → length (all_lines rs) < fuel
      → run fuel (suc steps) h p rs ≡ some (record p { code = pos 0 }, render (all_lines rs), done)
  unfolding run start_state end_run
  run_empty fuel steps p rs e q f =
      let st = start_state p rs in
      let (st', r, t, k, same) =
        run_loop-copies (all_lines rs) fuel steps st f
          (record { empty = e; loud = q; queue = refl; sound = refl; running = refl })
          (new_input-remaining rs) in
      ap (Option.map end_run) r
      ∙ ap some (end_run-copied k same (t ∙ text_after-start (all_lines rs)))

render-prepend-of_ne : (c : ℕ) (ls : List Line) → render (prepend c ls) ≡ c ∷ render ls
render-prepend-of_ne c [] = refl
render-prepend-of_ne c ((l, nl) ∷ []) = refl
render-prepend-of_ne c ((l, nl) ∷ x ∷ ls) = refl

-- a newline-ended line in front
render-cons : (ls : List Line) → render (([], true) ∷ ls) ≡ b'\n' ∷ render ls
render-cons [] = refl
render-cons (x ∷ ls) = refl

render-text_lines : (s : Bytes) → render (text_lines s) ≡ s
render-text_lines [] = refl
render-text_lines (c ∷ s) = elim (Bool-cases (c == b'\n')) [
  | inl e ↦ rw e (render-cons (text_lines s) ∙ ground (arith, render-text_lines s))
  | inr e ↦ rw e (render-prepend-of_ne c (text_lines s) ∙ ap (◌∷◌ c) (render-text_lines s))
]

-- Where every write succeeds, a program with no command and not quiet gives back a single input
-- byte for byte, with or without a final newline, and ends normally, with any fuel above the
-- input's number of lines.
pub run_empty-one :
    (h : Host) (fuel steps : ℕ) (p : Program) (s : Bytes)
    → Accepts h
    → p.cmds ≡ []
    → p.quiet ≡ false
    → length (text_lines s) < fuel
    → run fuel (suc steps) h p (s ∷ []) ≡ some (record p { code = pos 0 }, s, done)
run_empty-one h fuel steps p s accepts e q f =
    let all : all_lines (s ∷ []) ≡ text_lines s = append-nil (text_lines s) in
    run_empty h accepts fuel steps p (s ∷ []) e q (rw all f)
    ∙ ap (λ (t : Bytes). some (record p { code = pos 0 }, t, done))
        (ap render all ∙ render-text_lines s)
