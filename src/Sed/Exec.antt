-- ===== src/Sed/Exec.antt =====
-- shell/sed/sed.go: `exec`, which runs the script over one pattern space.
pub mod Forward
use websh.Base.Result.{Result, ok, err}
use websh.Sed.Types.{Command}
use websh.Base.{
  ℕ, zero, suc, Bool, true, false, not, ◌||◌, Option, none, some, ◌==◌, if◌then◌else◌, get_elem?,
  set,
}
use websh.Sed.Host.{Host}
use websh.Sed.Ranges.{View, Selection, selected}
use websh.Sed.State.{State, Action, act_end, Next, proceed, jump, stop, last_line}
use websh.Sed.Commands.{run_command}

abbrev view_of : State → View
view_of st = record { ps = st.ps; line = st.input.line; last = last_line st }

-- the range state of the command at `pc`, and the regex used last
abbrev store_selection : State → ℕ → Selection → State
store_selection st pc s = record st {
  p = record (st.p) { cmds = set st.p.cmds pc s.cmd; last_rx = s.last_rx };
}

bool_eq : Bool → Bool → Bool
bool_eq true b = b
bool_eq false b = not b

-- from the answer of `selected` on
unfoldable pub act_on : Host → State → ℕ → Selection → Result Bool → State × Result Next
unfolding bool_eq run_command
act_on h st pc s (err e) = (store_selection st pc s, err e)
act_on h st pc s (ok sel) =
    let st' = store_selection st pc s in
    if bool_eq sel s.cmd.negate
    then (st', if s.cmd.name == b'{' then ok (jump s.cmd.block) else ok proceed)
    else run_command h st' s.cmd

-- one round of the loop of `exec`, for the command `c` at `pc`
unfoldable pub exec_step : Host → State → ℕ → Command → State × Result Next
unfolding act_on selected
exec_step h st pc c =
    if c.name == b'}' || c.name == b':'
    then (st, ok proceed)
    else let s = selected h (view_of st) st.p.last_rx c in act_on h st pc s s.verdict

-- `st.exec()` from `pc` on with fuel; `none` means that the fuel ran out.
unfoldable pub exec_from : ℕ → Host → ℕ → State → Option (State × Result Action)
unfolding exec_step
exec_from zero h pc st = none
exec_from (suc fuel) h pc st = elim (get_elem? st.p.cmds pc) [
  | none ↦ some (st, ok act_end)
  | some c ↦
      let r = exec_step h st pc c in
      elim r.1 [
        | err e ↦ some (r.0, err e)
        | ok proceed ↦ exec_from fuel h (suc pc) r.0
        | ok (jump t) ↦ exec_from fuel h (suc t) r.0
        | ok (stop a) ↦ some (r.0, ok a)
      ]
]
