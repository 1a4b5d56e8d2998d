-- ===== src/Sed/Applet.antt =====
-- shell/sedapplet.go: the command line of sed.
pub mod Files
mod Tests
use websh.Base.{
  ℕ, zero, suc, Bool, true, false, not, ◌&&◌, ◌||◌, Option, none, some, List, [], ◌∷◌, ◌++◌, ◌==◌,
  if◌then◌else◌, Bytes, codes, equal, has_prefix, index_byte, one_of, take, drop, trim_newline,
}
use websh.Base.Result.{Fault, Result, ok, err}

-- the arguments as they are read, with the operands so far
pub record SedArgs : Type 0 where
  pub scripts : List Bytes
  pub operands : List Bytes
  pub have_script : Bool
  pub quiet : Bool
  pub ere : Bool
  pub separate : Bool
  pub in_place : Bool
  pub suffix : Bytes

abbrev pub no_args : SedArgs
no_args = record {
  scripts = [];
  operands = [];
  have_script = false;
  quiet = false;
  ere = false;
  separate = false;
  in_place = false;
  suffix = [];
}

-- What `parseSedArgs` returns: `errSedHelp`, another error, or the arguments.
pub data Parsed : Type 0 where
  help : Parsed
  bad : Fault → Parsed
  parsed : SedArgs → Parsed

-- What an argument is: one that is done with, one that takes the next for a script or for a file of
-- one, the end of the options, or the end of the parse.
pub data SedStep : Type 0 where
  next_arg : SedArgs → SedStep
  wants_script wants_file : SedArgs → Fault → SedStep
  end_options : SedStep
  stops : Parsed → SedStep

abbrev add_script : SedArgs → Bytes → SedArgs
add_script a v = record a { scripts = a.scripts ++ v ∷ []; have_script = true }

abbrev edit_in_place : SedArgs → Bytes → SedArgs
edit_in_place a suffix = record a { in_place = true; suffix = suffix }

-- `addFile` of what was read
abbrev added_file : SedArgs → Result Bytes → Result SedArgs
added_file a (err e) = err e
added_file a (ok s) = ok (add_script a (trim_newline s))

abbrev file_step : SedArgs → Result Bytes → SedStep
file_step a (err e) = stops (bad e)
file_step a (ok s) = next_arg (add_script a (trim_newline s))

-- the value behind `=` of a long option, or the next argument
abbrev script_value : SedArgs → Bytes → Option Bytes → SedStep
script_value a name (some v) = next_arg (add_script a v)
script_value a name none =
    wants_script a (Fault.with_text "option '--%s' requires an argument" name)

abbrev file_value : (Bytes → Result Bytes) → SedArgs → Bytes → Option Bytes → SedStep
file_value read a name (some v) = file_step a (read v)
file_value read a name none =
    wants_file a (Fault.with_text "option '--%s' requires an argument" name)

abbrev or_empty : Option Bytes → Bytes
or_empty none = []
or_empty (some v) = v

unfoldable pub one_of_names : Bytes → List Bytes → Bool
unfolding equal
one_of_names s [] = false
one_of_names s (n ∷ ns) = equal s n || one_of_names s ns

-- a long option, with the value behind its `=`
unfoldable pub long_option : (Bytes → Result Bytes) → SedArgs → Bytes → Option Bytes → SedStep
unfolding equal one_of_names
long_option read a name val =
    if equal name (codes "quiet") || equal name (codes "silent")
    then next_arg (record a { quiet = true })
    else if equal name (codes "regexp-extended")
    then next_arg (record a { ere = true })
    else if equal name (codes "separate")
    then next_arg (record a { separate = true })
    else if equal name (codes "in-place")
    then next_arg (edit_in_place a (or_empty val))
    else if equal name (codes "expression")
    then script_value a name val
    else if equal name (codes "file")
    then file_value read a name val
    else if one_of_names name (
        codes "posix"
        ∷ codes "unbuffered"
        ∷ codes "debug"
        ∷ codes "sandbox"
        ∷ codes "follow-symlinks"
        ∷ [])
    then next_arg a
    else if equal name (codes "help")
    then stops help
    else stops (bad (Fault.with_text "unknown option -- '%s'" name))

abbrev cut_equals : (Bytes → Option Bytes → SedStep) → Bytes → Option ℕ → SedStep
cut_equals option s none = option s none
cut_equals option s (some i) = option (take i s) (some (drop (suc i) s))

-- what `-e` and `-f` take: the rest of the cluster, or the next argument
abbrev script_letter : SedArgs → Bytes → SedStep
script_letter a [] = wants_script a (Fault.with_byte "option requires an argument -- '%c'" b'e')
script_letter a (c ∷ v) = next_arg (add_script a (c ∷ v))

abbrev file_letter : (Bytes → Result Bytes) → SedArgs → Bytes → SedStep
file_letter read a [] = wants_file a (Fault.with_byte "option requires an argument -- '%c'" b'f')
file_letter read a (c ∷ v) = file_step a (read (c ∷ v))

-- a letter that only sets a flag
abbrev flag_letter : SedArgs → ℕ → SedArgs
flag_letter a c =
    if c == b'n'
    then record a { quiet = true }
    else if c == b'E' || c == b'r'
    then record a { ere = true }
    else if c == b's'
    then record a { separate = true }
    else a

-- the letters of a cluster
unfoldable pub letters : (Bytes → Result Bytes) → SedArgs → Bytes → SedStep
letters read a [] = next_arg a
letters read a (c ∷ s) =
    let later = letters read (flag_letter a c) s in
    if one_of (codes "nErsu") c
    then later
    else if c == b'z'
    then stops (bad (Fault.plain "-z is not supported"))
    else if c == b'i'
    then next_arg (edit_in_place a s)
    else if c == b'e'
    then script_letter a s
    else if c == b'f'
    then file_letter read a s
    else if c == b'h'
    then stops help
    else stops (bad (Fault.with_byte "invalid option -- '%c'" c))

-- one argument of `parseSedArgs`
unfoldable pub sed_step : (Bytes → Result Bytes) → SedArgs → Bytes → SedStep
unfolding equal has_prefix index_byte letters long_option
sed_step read a arg =
    if equal arg (codes "--")
    then end_options
    else if has_prefix arg (codes "--")
    then cut_equals (long_option read a) (drop 2 arg) (index_byte b'=' (drop 2 arg))
    else if has_prefix arg (codes "-") && not (equal arg (codes "-"))
    then letters read a (drop 1 arg)
    else next_arg (record a { operands = a.operands ++ arg ∷ [] })

-- what `parseSedArgs` does behind its loop
abbrev with_files : SedArgs → List Bytes → Parsed
with_files a [] =
    if a.in_place then bad (Fault.plain "no input files") else parsed (record a { operands = [] })
with_files a (f ∷ fs) = parsed (record a { operands = f ∷ fs; separate = a.separate || a.in_place })

abbrev first_operand : SedArgs → List Bytes → Parsed
first_operand a [] = help
first_operand a (s ∷ fs) = with_files (record a { scripts = s ∷ [] }) fs

unfoldable pub finish_args : SedArgs → Parsed
finish_args a = if a.have_script then with_files a a.operands else first_operand a a.operands

-- the loop of `parseSedArgs`
unfoldable pub sed_loop : (Bytes → Result Bytes) → SedArgs → List Bytes → Parsed
unfolding finish_args sed_step
sed_loop read a [] = finish_args a
sed_loop read a (arg ∷ []) = elim (sed_step read a arg) [
  | next_arg a₁ ↦ finish_args a₁
  | wants_script a₁ e ↦ bad e
  | wants_file a₁ e ↦ bad e
  | end_options ↦ finish_args a
  | stops p ↦ p
]
sed_loop read a (arg ∷ v ∷ rest) = elim (sed_step read a arg) [
  | next_arg a₁ ↦ sed_loop read a₁ (v ∷ rest)
  | wants_script a₁ e ↦ sed_loop read (add_script a₁ v) rest
  | wants_file a₁ e ↦ elim (added_file a₁ (read v)) [
    | err f ↦ bad f
    | ok a₂ ↦ sed_loop read a₂ rest
  ]
  | end_options ↦ finish_args (record a { operands = a.operands ++ v ∷ rest })
  | stops p ↦ p
]

-- `parseSedArgs`; `read` reads a file by its argument
unfoldable pub parse_sed_args : (Bytes → Result Bytes) → List Bytes → Parsed
unfolding sed_loop
parse_sed_args read args = sed_loop read no_args args
