-- ===== src/Ssh/Mosh.antt =====
-- shell/ssh/mosh.go: the command that starts a mosh server, and its answer; shell/ssh/session.go:
-- the escape of the keys, and the exit status.
pub mod Quoting
mod Witnesses
use websh.Base.{
  ℕ, zero, suc, Bool, true, false, not, ◌&&◌, ◌||◌, Option, none, some, List, [], ◌∷◌, ◌++◌, ◌==◌,
  if◌then◌else◌, Bytes, codes, equal, one_of, within, is_digit,
}
use websh.Base.Result.{Fault, Result, ok, err}
use websh.Base.Decimal.{itoa}
use websh.Base.Paths.{join_with, split_byte}
use websh.Ssh.Args.{parse_port}

-- the bytes that need no quotes
abbrev pub is_plain : ℕ → Bool
is_plain c = within b'a' b'z' c || within b'A' b'Z' c || is_digit c || one_of (codes "_-.=:/@,+") c

unfoldable pub all_plain : Bytes → Bool
all_plain [] = true
all_plain (c ∷ s) = is_plain c && all_plain s

-- the text in quotes, behind the first: a quote ends them, and stands behind a backslash
unfoldable pub quoted : Bytes → Bytes
quoted [] = b'\'' ∷ []
quoted (c ∷ s) = if c == b'\'' then b'\'' ∷ b'\\' ∷ b'\'' ∷ b'\'' ∷ quoted s else c ∷ quoted s

-- `shellQuote(s)`
unfoldable pub shell_quote : Bytes → Bytes
unfolding all_plain quoted
shell_quote [] = b'\'' ∷ quoted []
shell_quote (c ∷ s) = if all_plain (c ∷ s) then c ∷ s else b'\'' ∷ quoted (c ∷ s)

unfoldable pub locale_args : List Bytes → List Bytes
unfolding shell_quote
locale_args [] = []
locale_args (l ∷ ls) = codes "-l" ∷ shell_quote l ∷ locale_args ls

abbrev port_args : ℕ → List Bytes
port_args port = if port == 0 then [] else codes "-p" ∷ itoa port ∷ []

-- `MoshServerCommand`
unfoldable pub mosh_server_command : ℕ → ℕ → List Bytes → Bytes
unfolding itoa join_with locale_args
mosh_server_command colors port locale = join_with (codes " ") (
    codes "mosh-server"
    ∷ codes "new"
    ∷ codes "-c"
    ∷ itoa colors
    ∷ codes "-s"
    ∷ (port_args port ++ locale_args locale))

-- `\r` as `\n`
unfoldable pub returns_as_lines : Bytes → Bytes
returns_as_lines [] = []
returns_as_lines (c ∷ s) = (if c == b'\r' then b'\n' else c) ∷ returns_as_lines s

abbrev connect_port : Bytes → Bytes → Option ℕ → Result (ℕ × Bytes)
connect_port port key none = err (Fault.with_text "bad port in MOSH CONNECT line: %q" port)
connect_port port key (some n) = ok (n, key)

-- the words of a line, or the line that follows
abbrev pub connect_line : List Bytes → Result (ℕ × Bytes) → Result (ℕ × Bytes)
unfolding equal parse_port
connect_line (a ∷ b ∷ port ∷ key ∷ []) later =
    if equal a (codes "MOSH") && equal b (codes "CONNECT")
    then connect_port port key (parse_port port)
    else later
connect_line _ later = later

unfoldable pub connect_lines : (Bytes → List Bytes) → List Bytes → Result (ℕ × Bytes)
unfolding equal parse_port
connect_lines fields [] =
    err (Fault.plain "did not find mosh-server startup message (is mosh installed on the server?)")
connect_lines fields (l ∷ ls) = connect_line (fields l) (connect_lines fields ls)

-- `ParseMoshConnect`; `fields` is `strings.Fields`
unfoldable pub parse_mosh_connect : (Bytes → List Bytes) → Bytes → Result (ℕ × Bytes)
unfolding connect_lines returns_as_lines split_byte
parse_mosh_connect fields out =
    let ls = split_byte b'\n' (returns_as_lines out) in connect_lines fields (ls.0 ∷ ls.1)

-- The state of `forwardKeys`: at the start of a line, and behind a tilde there.
pub record KeyState : Type 0 where
  pub line_start : Bool
  pub tilde : Bool

-- what is sent of the bytes of a read, the state behind it, and whether `~.` was typed
pub record Forwarded : Type 0 where
  pub send : Bytes
  pub state : KeyState
  pub quit : Bool

abbrev sends : Bytes → Forwarded → Forwarded
sends s f = record f { send = s ++ f.send }

abbrev keys_at : Bool → Bool → KeyState
keys_at line_start tilde = record { line_start = line_start; tilde = tilde }

abbrev is_line_end : ℕ → Bool
is_line_end b = b == b'\r' || b == b'\n'

-- the loop of `forwardKeys` over the bytes of a read
unfoldable pub forward_keys : KeyState → Bytes → Forwarded
forward_keys k [] = record { send = []; state = k; quit = false }
forward_keys k (b ∷ s) =
    let waits = forward_keys (keys_at k.line_start true) s in
    let plain = forward_keys (keys_at (is_line_end b) false) s in
    let doubled = forward_keys (keys_at false false) s in
    elim k.tilde [
      | true ↦
          if b == b'.'
          then record { send = []; state = keys_at k.line_start false; quit = true }
          else if b == b'~'
          then sends (b'~' ∷ []) doubled
          else sends (b'~' ∷ b ∷ []) plain
      | false ↦ if k.line_start && b == b'~' then waits else sends (b ∷ []) plain
    ]

-- What `Wait` has come to: no error, an exit with a signal (empty for none) and a status, a missing
-- status, or another error.
pub data WaitError : Type 0 where
  no_error : WaitError
  exit_error : Bytes → ℕ → WaitError
  exit_missing : WaitError
  other_error : Fault → WaitError

-- `exitStatus(err)`
unfoldable pub exit_status : WaitError → ℕ × Option Fault
unfolding equal
exit_status no_error = (0, none)
exit_status (exit_error signal status) =
    if not (equal signal []) && status == 0
    then (255, some (Fault.with_text "remote command killed by signal %s" signal))
    else (status, none)
exit_status exit_missing = (255, none)
exit_status (other_error e) = (255, some e)
