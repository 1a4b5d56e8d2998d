-- ===== src/Sed/Run.antt =====
-- shell/sed/sed.go: the cycle, `Run` and `Compile`.
pub mod Cat
use websh.Base.Result.{Fault, Result, ok, err, ◌>>=◌}
use websh.Base.Int.{pos}
use websh.Sed.Types.{Command, is_zero}
use websh.Base.{
  ℕ, zero, suc, Bool, true, false, ◌||◌, Option, none, some, List, [], map, if◌then◌else◌, Bytes,
  codes, equal, has_prefix,
}
use websh.Sed.Host.{Host}
use websh.Sed.Input.{new_input, read}
use websh.Sed.State.{
  Program, State, Action, act_end, act_delete, act_restart, act_quit, act_quit_silent, act_eof,
  flush_appends, autoprint,
}
use websh.Sed.Exec.{exec_from}
use websh.Sed.Parse.{parse}
use mathlib.Core.Option

-- How a cycle ends: with the next line, on what `D` has left, or the whole run.
pub data CycleEnd : Type 0 where
  fresh_line again over : CycleEnd

-- What `run` does in front of `exec`; `none` where the input is at its end.
unfoldable pub begin_cycle : Bool → State → Option State
unfolding read
begin_cycle true st = some st
begin_cycle false st =
    let r = read st.input in
    if r.0.2
    then some (record st { ps = r.0.0; nl = r.0.1; input = r.1; replaced = false })
    else none

-- the `switch act` of `run`, and the flush behind it
unfoldable pub end_cycle : Host → State → Action → State × CycleEnd
unfolding autoprint flush_appends
end_cycle h st act_end = (flush_appends h (autoprint h st), fresh_line)
end_cycle h st act_delete = (flush_appends h st, fresh_line)
end_cycle h st act_restart = (flush_appends h st, again)
end_cycle h st act_quit = (record (flush_appends h (autoprint h st)) { quit = true }, over)
end_cycle h st act_quit_silent = (record st { quit = true }, over)
end_cycle h st act_eof = (flush_appends h st, over)

-- `st.run()`, with fuel for the cycles and for the commands of each; `none` means that either ran
-- out.
unfoldable pub run_loop : ℕ → ℕ → Host → Bool → State → Option (State × Result (Unit {0}))
unfolding begin_cycle end_cycle exec_from
run_loop zero steps h restart st = none
run_loop (suc fuel) steps h restart st = elim (begin_cycle restart st) [
  | none ↦ some (st, ok tt)
  | some st₁ ↦ elim (exec_from steps h 0 st₁) [
    | none ↦ none
    | some (st₂, err e) ↦ some (st₂, err e)
    | some (st₂, ok act) ↦
        let r = end_cycle h st₂ act in
        elim r.1 [
          | fresh_line ↦ run_loop fuel steps h false r.0
          | again ↦ run_loop fuel steps h true r.0
          | over ↦ some (r.0, ok tt)
        ]
  ]
]

-- What `Run` returns: nil, `ErrQuit`, an error of the script, or that of the writer.
pub data Ended : Type 0 where
  done : Ended
  quit : Ended
  failed : Fault → Ended
  write_failed : Ended

-- the state that `Run` starts from
unfoldable pub start_state : Program → List Bytes → State
unfolding new_input
start_state p rs = record {
  p = record p { code = pos 0 };
  input = new_input rs;
  out = record { w = []; missing_nl = false; failed = false };
  ps = [];
  nl = false;
  replaced = false;
  append_q = [];
  quit = false;
  code = pos 0;
}

-- what `Run` does behind `st.run()`
unfoldable pub end_run : State × Result (Unit {0}) → Program × Bytes × Ended
end_run (st, r) = if st.out.failed then (st.p, st.out.w, write_failed) else elim r [
  | err e ↦ (st.p, st.out.w, failed e)
  | ok _ ↦
      if st.quit then (record (st.p) { code = st.code }, st.out.w, quit) else (st.p, st.out.w, done)
]

-- `p.Run(w, rs...)`: the program, what `w` was given, and what is returned
unfoldable pub run : ℕ → ℕ → Host → Program → List Bytes → Option (Program × Bytes × Ended)
unfolding end_run run_loop start_state
run fuel steps h p rs = Option.map end_run (run_loop fuel steps h false (start_state p rs))

-- The range of `0,/re/` begins before the first line.
unfoldable pub activate : Command → Command
activate c = if is_zero c.a1.kind then record c { active = true } else c

-- `Compile(script, opt)`
unfoldable pub compile : Host → Bytes → Bool → Bool → Option (Result Program)
unfolding activate equal has_prefix parse
compile h script quiet extended =
    Option.map
      (λ r. r >>= λ cmds. ok (record {
        quiet = quiet || has_prefix script (codes "#n\n") || equal script (codes "#n");
        cmds = map activate cmds;
        hold = [];
        last_rx = none;
        writers = [];
        code = pos 0;
      }))
      (parse h.compiles script extended)
