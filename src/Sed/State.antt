-- ===== src/Sed/State.antt =====
-- shell/sed/sed.go: `Program` and `state`, what they print, and the files that they write.
use websh.Base.Result.{with_text, Result, ok, err}
use websh.Base.Int.{ℤ}
use websh.Sed.Types.{Command}
use websh.Base.{ℕ, Bool, not, Option, none, some, List, [], ◌∷◌, if◌then◌else◌, Bytes, equal}
use websh.Sed.Host.{Host}
use websh.Sed.Input.{Input}
use websh.Sed.Output.{Output, write, line}

-- `Program` (with `opt.Quiet`; the callbacks of `opt` are in the host). A writer is the bytes
-- written through it since it was opened.
pub record Program : Type 0 where
  pub quiet : Bool
  pub cmds : List Command
  pub hold : Bytes
  pub last_rx : Option Bytes
  pub writers : List (Bytes × Bytes)
  pub code : ℤ

-- `state`
pub record State : Type 0 where
  pub p : Program
  pub input : Input
  pub out : Output
  pub ps : Bytes
  pub nl : Bool
  pub replaced : Bool
  pub append_q : List Bytes
  pub quit : Bool
  pub code : ℤ

pub data Action : Type 0 where
  act_end act_delete act_restart act_quit act_quit_silent act_eof : Action

-- What follows a command: the next one, the one behind index `t`, or the end of the script.
pub data Next : Type 0 where
  proceed : Next
  jump : ℕ → Next
  stop : Action → Next

unfoldable pub write_all : Host → Output → List Bytes → Output
unfolding write
write_all h o [] = o
write_all h o (a ∷ as') = write_all h (write h o a) as'

-- `st.flushAppends()`
unfoldable pub flush_appends : Host → State → State
unfolding write_all
flush_appends h st = record st { out = write_all h st.out st.append_q; append_q = [] }

-- `st.autoprint()`
unfoldable pub autoprint : Host → State → State
unfolding line
autoprint h st = if st.p.quiet then st else record st { out = line h st.out st.ps st.nl }

-- `st.lastLine()`
abbrev pub last_line : State → Bool
last_line st = not st.input.has_next

-- `p.writers[name]`
unfoldable pub find_writer : Bytes → List (Bytes × Bytes) → Option Bytes
unfolding equal
find_writer name [] = none
find_writer name ((n, s) ∷ ws) = if equal n name then some s else find_writer name ws

unfoldable pub set_writer : Bytes → Bytes → List (Bytes × Bytes) → List (Bytes × Bytes)
unfolding equal
set_writer name s [] = (name, s) ∷ []
set_writer name s ((n, t) ∷ ws) =
    let later = set_writer name s ws in if equal n name then (n, s) ∷ ws else (n, t) ∷ later

-- `io.WriteString(w, s)` to the writer that holds `old`
put_writer : Host → Program → Bytes → Bytes → Bytes → Program × Result (Unit {0})
unfolding set_writer
put_writer h p name old s =
    let r = h.file_put name old s in
    (
      record p { writers = set_writer name r.0 p.writers },
      if r.1 then ok tt else err (with_text "write" name),
    )

-- `p.writeFile(name, s)`
unfoldable pub write_file : Host → Program → Bytes → Bytes → Program × Result (Unit {0})
unfolding find_writer put_writer
write_file h p name s = elim (find_writer name p.writers) [
  | some old ↦ put_writer h p name old s
  | none ↦ elim h.open_write [
    | none ↦ (p, err (with_text "couldn't open file " name))
    | some open_write ↦
        if open_write name then put_writer h p name [] s else (p, err (with_text "open" name))
  ]
]

-- the result of a write in the state that it leaves
unfoldable pub written : State → Program × Result (Unit {0}) → State × Result Next
written st (p, ok _) = (record st { p = p }, ok proceed)
written st (p, err e) = (record st { p = p }, err e)
