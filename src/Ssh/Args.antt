-- ===== src/Ssh/Args.antt =====
-- shell/ssh/applet.go: `parseArgs`; `WispURL` of shell/helpers.go.
use websh.Base.{
  ℕ, suc, ◌-◌, ◌^◌, Bool, true, false, not, ◌&&◌, Option, none, some, List, [], ◌∷◌, ◌++◌, ◌==◌,
  if◌then◌else◌, Bytes, codes, equal, has_prefix, ends_in, index_byte, one_of, length, take, drop,
  ltb,
}
use websh.Base.Result.{Fault, Result, ok, err}
use websh.Base.Decimal.{all_digits, digits_value}
use websh.Base.Paths.{join_with}

-- the flags, and what they come to
pub record SshArgs : Type 0 where
  pub wisp : Bytes
  pub user : Bytes
  pub host : Bytes
  pub port : ℕ
  pub identities : List Bytes
  pub no_stdin : Bool
  pub command : Bytes

abbrev pub no_flags : SshArgs
no_flags = record {
  wisp = [];
  user = [];
  host = [];
  port = 0;
  identities = [];
  no_stdin = false;
  command = [];
}

-- What `parseArgs` returns: `errHelp`, another error, or the arguments.
pub data SshParsed : Type 0 where
  help : SshParsed
  bad : Fault → SshParsed
  parsed : SshArgs → SshParsed

-- The value that a flag takes.
pub data ValueFlag : Type 0 where
  wisp_flag port_flag identity_flag user_flag : ValueFlag

-- What a flag is: one that is done with, one that takes the next argument, or the end of the parse.
pub data SshStep : Type 0 where
  next_arg : SshArgs → SshStep
  wants : ValueFlag → Fault → SshArgs → SshStep
  stops : SshParsed → SshStep

-- `WispURL(flag, env)`
unfoldable pub wisp_url : (Bytes → Bytes) → Bytes → Result Bytes
unfolding equal
wisp_url env flag =
    let u = env (codes "WISP_URL") in
    if not (equal flag [])
    then ok flag
    else if not (equal u [])
    then ok u
    else err (Fault.plain "no Wisp server: give --wisp ws://HOST/PATH or set WISP_URL")

-- `strconv.ParseUint(val, 10, 16)`, where 0 is an error too
unfoldable pub parse_port : Bytes → Option ℕ
unfolding all_digits digits_value equal
parse_port s =
    let n = digits_value 0 s in
    if not (equal s []) && all_digits s && ltb n (2 ^ 16) && ltb 0 n then some n else none

abbrev set_port : SshArgs → Bytes → Option ℕ → Result SshArgs
set_port a val none = err (Fault.with_text "bad port %q" val)
set_port a val (some n) = ok (record a { port = n })

unfoldable pub set_value : ValueFlag → SshArgs → Bytes → Result SshArgs
unfolding parse_port
set_value wisp_flag a v = ok (record a { wisp = v })
set_value port_flag a v = set_port a v (parse_port v)
set_value identity_flag a v = ok (record a { identities = a.identities ++ v ∷ [] })
set_value user_flag a v = ok (record a { user = v })

abbrev pub value_step : Result SshArgs → SshStep
value_step (err e) = stops (bad e)
value_step (ok a) = next_arg a

abbrev wisp_value : SshArgs → Option Bytes → SshStep
wisp_value a (some v) = next_arg (record a { wisp = v })
wisp_value a none = wants wisp_flag (Fault.plain "option --wisp needs a value") a

-- a flag that begins with two dashes, with the value behind its `=`
unfoldable pub long_flag : Bytes → SshArgs → Bytes → Option Bytes → SshStep
unfolding equal
long_flag arg a name val =
    if equal name (codes "help")
    then stops help
    else if equal name (codes "wisp")
    then wisp_value a val
    else stops (bad (Fault.with_text "unknown option %s" arg))

abbrev cut_equals : (Bytes → Option Bytes → SshStep) → Bytes → Option ℕ → SshStep
cut_equals flag s none = flag s none
cut_equals flag s (some i) = flag (take i s) (some (drop (suc i) s))

abbrev flag_of : ℕ → ValueFlag
flag_of c = if c == b'p' then port_flag else if c == b'i' then identity_flag else user_flag

-- what `-p`, `-i` and `-l` take: the rest of the argument, or the next one
abbrev pub letter_value : ℕ → SshArgs → Bytes → SshStep
unfolding set_value
letter_value c a [] = wants (flag_of c) (Fault.with_byte "option -%c needs a value" c) a
letter_value c a (d ∷ v) = value_step (set_value (flag_of c) a (d ∷ v))

-- the letters of a flag
unfoldable pub flag_letters : SshArgs → Bytes → SshStep
unfolding set_value
flag_letters a [] = next_arg a
flag_letters a (c ∷ s) =
    let later = flag_letters (if c == b'n' then record a { no_stdin = true } else a) s in
    if c == b'h'
    then stops help
    else if one_of (codes "ntTqvCAxX") c
    then later
    else if one_of (codes "pil") c
    then letter_value c a s
    else stops (bad (Fault.with_byte "unknown option -%c" c))

unfoldable pub flag_step : SshArgs → Bytes → SshStep
unfolding flag_letters has_prefix index_byte long_flag
flag_step a arg =
    if has_prefix arg (codes "--")
    then cut_equals (long_flag arg a) (drop 2 arg) (index_byte b'=' (drop 2 arg))
    else flag_letters a (drop 1 arg)

-- `strings.TrimPrefix(s, "[")`, and `strings.TrimSuffix(s, "]")`
abbrev trim_open : Bytes → Bytes
trim_open [] = []
trim_open (c ∷ s) = if c == b'[' then s else c ∷ s

unfoldable pub trim_brackets : Bytes → Bytes
unfolding ends_in
trim_brackets s = let t = trim_open s in if ends_in b']' t then take (length t - 1) t else t

abbrev at_user : Bytes → Option ℕ → Bytes × Bytes
at_user dest none = ([], dest)
at_user dest (some i) = (take i dest, drop (suc i) dest)

abbrev or_else : Bytes → Bytes → Bytes
or_else [] other = other
or_else (c ∷ s) other = c ∷ s

abbrev with_wisp : SshArgs → Result Bytes → SshParsed
with_wisp a (err e) = bad e
with_wisp a (ok u) = parsed (record a { wisp = u })

-- what `parseArgs` does behind its loop
unfoldable pub destination : (Bytes → Bytes) → SshArgs → List Bytes → SshParsed
unfolding equal index_byte join_with trim_brackets wisp_url
destination env a [] = help
destination env a (dest ∷ command) =
    let d = at_user dest (index_byte b'@' dest) in
    let host = trim_brackets d.1 in
    if equal host []
    then bad (Fault.plain "no host")
    else with_wisp
        (record a {
          user = or_else (or_else a.user d.0) (env (codes "USER"));
          host = host;
          command = join_with (codes " ") command;
        })
        (wisp_url env a.wisp)

-- What an argument is to the loop: a flag, `--`, or the destination.
pub data SshArgument : Type 0 where
  flag double_dash first_operand : SshArgument

unfoldable pub ssh_argument : Bytes → SshArgument
unfolding equal has_prefix
ssh_argument arg =
    if equal arg (codes "--")
    then double_dash
    else if has_prefix arg (codes "-") && not (equal arg (codes "-"))
    then flag
    else first_operand

abbrev pub ends_args : (Bytes → Bytes) → SshStep → SshParsed
unfolding destination
ends_args env (next_arg a) = destination env a []
ends_args env (wants f e a) = bad e
ends_args env (stops p) = p

-- the loop of `parseArgs`
unfoldable pub ssh_loop : (Bytes → Bytes) → SshArgs → List Bytes → SshParsed
unfolding destination flag_step set_value ssh_argument
ssh_loop env a [] = destination env a []
ssh_loop env a (arg ∷ []) = elim (ssh_argument arg) [
  | flag ↦ ends_args env (flag_step a arg)
  | double_dash ↦ destination env a []
  | first_operand ↦ destination env a (arg ∷ [])
]
ssh_loop env a (arg ∷ v ∷ rest) = elim (ssh_argument arg) [
  | flag ↦ elim (flag_step a arg) [
    | next_arg a₁ ↦ ssh_loop env a₁ (v ∷ rest)
    | wants f e a₁ ↦ elim (set_value f a₁ v) [ err g ↦ bad g | ok a₂ ↦ ssh_loop env a₂ rest ]
    | stops p ↦ p
  ]
  | double_dash ↦ destination env a (v ∷ rest)
  | first_operand ↦ destination env a (arg ∷ v ∷ rest)
]

-- `parseArgs`
unfoldable pub parse_args : (Bytes → Bytes) → List Bytes → SshParsed
unfolding ssh_loop
parse_args env argv = ssh_loop env no_flags argv
