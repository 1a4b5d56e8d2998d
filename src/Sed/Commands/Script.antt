-- ===== src/Sed/Commands/Script.antt =====
-- No command changes the script, and only the braces and branches jump.
use websh.Base.{
  ℕ, ◌≡◌, refl, Bool, true, false, List, arith, ◌==◌, if◌then◌else◌, Bytes, Option, some, none,
  one_of, codes,
}
use websh.Base.Result.{Fault, Result, ok, err}
use websh.Sed.Types.{Command}
use websh.Sed.Host.{Host}
use websh.Sed.State.{State, Next, proceed, jump, stop, Action, write_file, written}
use websh.Sed.Commands.{
  run_other, run_command, substitute, next_cycle, append_next, delete_first, change,
}

-- The names whose commands jump.
abbrev pub is_jump : ℕ → Bool
is_jump name = one_of (codes "{btT") name

-- The script is as before, and a jump is one that the command makes.
unfoldable pub JumpsBy : Command → Result Next → Type 0
JumpsBy c (ok (jump t)) = (t ≡ c.block) × (is_jump c.name ≡ true)
JumpsBy c _ = Unit

unfoldable pub Keeps : List Command → Command → State × Result Next → Type 0
Keeps cmds c r = (r.0.p.cmds ≡ cmds) × JumpsBy c r.1

module _ (cmds : List Command) (c : Command) where
  pub Keeps-if :
      (b : Bool) (x y : State × Result Next)
      → (b ≡ true → Keeps cmds c x)
      → Keeps cmds c y
      → Keeps cmds c (if b then x else y)
  Keeps-if true x y f k = f refl
  Keeps-if false x y f k = k

  pub Keeps-proceed : (st : State) → st.p.cmds ≡ cmds → Keeps cmds c (st, ok proceed)
  unfolding Keeps JumpsBy
  Keeps-proceed st e = (e, tt)

  Keeps-stop : (st : State) (a : Action) → st.p.cmds ≡ cmds → Keeps cmds c (st, ok (stop a))
  unfolding Keeps JumpsBy
  Keeps-stop st a e = (e, tt)

  pub Keeps-err : (st : State) (e : Fault) → st.p.cmds ≡ cmds → Keeps cmds c (st, err e)
  unfolding Keeps JumpsBy
  Keeps-err st e k = (k, tt)

  pub Keeps-jump :
      (st : State) → st.p.cmds ≡ cmds → is_jump c.name ≡ true → Keeps cmds c (st, ok (jump c.block))
  unfolding Keeps JumpsBy
  Keeps-jump st e j = (e, (refl, j))

module _ (name : ℕ) where
  pub is_jump-brace : (name == b'{') ≡ true → is_jump name ≡ true
  is_jump-brace h = ground arith

  is_jump-b : (name == b'b') ≡ true → is_jump name ≡ true
  is_jump-b h = ground arith

  is_jump-t : (name == b't') ≡ true → is_jump name ≡ true
  is_jump-t h = ground arith

  is_jump-T : (name == b'T') ≡ true → is_jump name ≡ true
  is_jump-T h = ground arith

module _ (h : Host) (st : State) (c : Command) where
  substitute-Keeps : Keeps st.p.cmds c (substitute h st c)
  unfolding substitute Keeps JumpsBy
  substitute-Keeps = ground arith

  write_file-Keeps : (name s : Bytes) → Keeps st.p.cmds c (written st (write_file h st.p name s))
  unfolding write_file written Keeps JumpsBy
  write_file-Keeps name s = ground arith

  next_cycle-cmds : (next_cycle h st).p.cmds ≡ st.p.cmds
  unfolding next_cycle
  next_cycle-cmds = ground arith

  append_next-cmds : (append_next h st).p.cmds ≡ st.p.cmds
  unfolding append_next
  append_next-cmds = ground arith

  change-cmds : (change h st c).p.cmds ≡ st.p.cmds
  unfolding change
  change-cmds = ground arith

  delete_first-Keeps : (i : Option ℕ) → Keeps st.p.cmds c (delete_first h st i)
  unfolding delete_first Keeps JumpsBy
  delete_first-Keeps none = (refl, tt)
  delete_first-Keeps (some i) = (refl, tt)

  ruleset keeping = (
    Keeps-if, Keeps-proceed, Keeps-stop, Keeps-jump, is_jump-brace, is_jump-b, is_jump-t, is_jump-T,
    refl,
  )

  run_other-Keeps : Keeps st.p.cmds c (run_other h st c)
  unfolding run_other
  run_other-Keeps =
      search (keeping, substitute-Keeps, write_file-Keeps, next_cycle-cmds, append_next-cmds) depth
        18

  pub run_command-Keeps : Keeps st.p.cmds c (run_command h st c)
  unfolding run_command
  run_command-Keeps = search (keeping, run_other-Keeps, delete_first-Keeps, change-cmds) depth 20
