-- ===== src/Prompt.antt =====
-- shell/prompt.go: the variables of the shell, and the prompt that PS1 asks for.
mod Quoted
mod Witnesses
use websh.Base.{
  ℕ, zero, suc, ◌+◌, ◌-◌, ◌*◌, Bool, not, ◌&&◌, ◌||◌, Option, none, some, [], ◌∷◌, ◌++◌, ◌==◌,
  if◌then◌else◌, Bytes, codes, equal, has_prefix, index_byte, length, take, drop, slice, ltb,
  within, is_digit,
}
use websh.Base.Paths.{base_path}

-- What the prompt reads: the interpreter's variables (whether one is set), its environment, its
-- directory; and of the system the name of the host, whether the user is root, and the time in a
-- layout of Go's.
pub record PromptSource : Type 0 where
  pub vars : Bytes → Option (Option Bytes)
  pub env : Bytes → Bytes
  pub dir : Bytes
  pub hostname : Bytes
  pub euid_is_zero : Bool
  pub clock : Bytes → Bytes
  pub ps1_start : Bytes

abbrev var_value : Bytes → Option (Option Bytes) → Bytes
var_value inherited (some (some v)) = v
var_value inherited (some none) = []
var_value inherited none = inherited

-- `Var`
unfoldable pub var : PromptSource → Bytes → Bytes
var s name = var_value (s.env name) (s.vars name)

abbrev name_start : ℕ → Bool
name_start c = c == b'_' || within b'a' b'z' c || within b'A' b'Z' c

-- the length of a name, behind its first byte and in front of it
unfoldable pub name_more : Bytes → ℕ
name_more [] = 0
name_more (c ∷ s) = let later = name_more s in if name_start c || is_digit c then suc later else 0

unfoldable pub name_length : Bytes → ℕ
unfolding name_more
name_length [] = 0
name_length (c ∷ s) = if name_start c then suc (name_more s) else 0

abbrev braced : Bytes → Option ℕ → Bytes × ℕ
braced s none = ([], 0)
braced s (some end) = if ltb 1 end then (slice 1 end s, suc end) else ([], 0)

-- `promptVarName`
unfoldable pub prompt_var_name : Bytes → Bytes × ℕ
unfolding index_byte name_length
prompt_var_name [] = ([], 0)
prompt_var_name (c ∷ s) =
    let n = name_length (c ∷ s) in
    if c == b'{' then braced (c ∷ s) (index_byte b'}' (c ∷ s)) else (take n (c ∷ s), n)

-- what `\h` and `\H` print
abbrev up_to : Bytes → Option ℕ → Bytes
up_to s none = s
up_to s (some i) = take i s

unfoldable pub host_name : PromptSource → Bytes
unfolding equal var
host_name s = let host = var s (codes "HOSTNAME") in if equal host [] then s.hostname else host

unfoldable pub short_host : PromptSource → Bytes
unfolding host_name index_byte
short_host s = up_to (host_name s) (index_byte b'.' (host_name s))

-- what `\w` prints, and `\W`
unfoldable pub home_dir : PromptSource → Bytes
unfolding equal has_prefix var
home_dir s =
    let home = var s (codes "HOME") in
    if not (equal home [])
      && not (equal home (codes "/"))
      && (equal s.dir home || has_prefix s.dir (home ++ codes "/"))
    then b'~' ∷ drop (length home) s.dir
    else s.dir

unfoldable pub last_dir : PromptSource → Bytes
unfolding base_path equal home_dir
last_dir s =
    let dir = home_dir s in
    if not (equal dir (codes "~")) && not (equal dir (codes "/")) then base_path dir else dir

-- what `\$` prints
unfoldable pub root_mark : PromptSource → ℕ
unfolding equal var
root_mark s =
    let euid = var s (codes "EUID") in
    if equal euid (codes "0") || (equal euid [] && s.euid_is_zero) then b'#' else b'$'

-- the digits of `\nnn`, at most `n`
unfoldable pub octal_length : ℕ → Bytes → ℕ
octal_length zero s = 0
octal_length (suc n) [] = 0
octal_length (suc n) (c ∷ s) =
    let later = octal_length n s in if within b'0' b'7' c then suc later else 0

unfoldable pub octal_value : ℕ → Bytes → ℕ
octal_value v [] = v
octal_value v (c ∷ s) = octal_value (v * 8 + (c - b'0')) s

-- `strconv.ParseUint(digits, 8, 8)`; out of range it is the greatest
unfoldable pub parse_octal : Bytes → ℕ
unfolding octal_value
parse_octal s = let v = octal_value 0 s in if ltb 255 v then 255 else v

-- the escapes that print one byte
unfoldable pub byte_escape : PromptSource → ℕ → Option ℕ
unfolding root_mark
byte_escape s e =
    if e == b'$'
    then some (root_mark s)
    else if e == b'n'
    then some b'\n'
    else if e == b'r'
    then some b'\r'
    else if e == b'e'
    then some 0x1b
    else if e == b'a'
    then some 0x07
    else if e == b'\\'
    then some b'\\'
    else if e == b'['
    then some 0x01
    else if e == b']'
    then some 0x02
    else none

-- the escapes that print the time
unfoldable pub time_layout : ℕ → Option Bytes
time_layout e =
    if e == b't'
    then some (codes "15:04:05")
    else if e == b'T'
    then some (codes "03:04:05")
    else if e == b'@'
    then some (codes "03:04 PM")
    else if e == b'A'
    then some (codes "15:04")
    else if e == b'd'
    then some (codes "Mon Jan 02")
    else none

-- the escapes that print a name or a directory
unfoldable pub text_escape : PromptSource → ℕ → Option Bytes
unfolding home_dir host_name last_dir short_host var
text_escape s e =
    if e == b'u'
    then some (var s (codes "USER"))
    else if e == b'h'
    then some (short_host s)
    else if e == b'H'
    then some (host_name s)
    else if e == b'w'
    then some (home_dir s)
    else if e == b'W'
    then some (last_dir s)
    else none

-- what is written for the byte behind a backslash, and how many bytes that takes
abbrev text_or : Option Bytes → Bytes × ℕ → Bytes × ℕ
text_or (some t) other = (t, 1)
text_or none other = other

abbrev byte_or : Option ℕ → Bytes × ℕ → Bytes × ℕ
byte_or (some b) other = (b ∷ [], 1)
byte_or none other = other

abbrev clock_or : (Bytes → Bytes) → Option Bytes → Bytes × ℕ → Bytes × ℕ
clock_or clock (some layout) other = (clock layout, 1)
clock_or clock none other = other

unfoldable pub octal_or_plain : ℕ → Bytes → Bytes × ℕ
unfolding octal_length parse_octal
octal_or_plain e t =
    let n = octal_length 3 (e ∷ t) in
    if within b'0' b'3' e then (parse_octal (take n (e ∷ t)) ∷ [], n) else (b'\\' ∷ e ∷ [], 1)

unfoldable pub escaped : PromptSource → ℕ → Bytes → Bytes × ℕ
unfolding byte_escape octal_or_plain text_escape time_layout
escaped s e t =
    byte_or (byte_escape s e)
      (text_or (text_escape s e) (clock_or s.clock (time_layout e) (octal_or_plain e t)))

abbrev backslash : PromptSource → Bytes → Bytes × ℕ
unfolding escaped
backslash s [] = (b'\\' ∷ [], 0)
backslash s (e ∷ t) = escaped s e t

-- one round of `expandPrompt` at the byte `c`: what is written, and how many bytes it takes behind `c`
unfoldable pub piece : PromptSource → ℕ → Bytes → Bytes × ℕ
unfolding escaped prompt_var_name var
piece s c p =
    let v = prompt_var_name p in
    if c == b'$' && ltb 0 v.1
    then (var s v.0, v.1)
    else if c == b'\\'
    then backslash s p
    else (c ∷ [], 0)

-- the loop of `expandPrompt`, with `k` bytes still to pass
unfoldable pub expand_rest : PromptSource → ℕ → Bytes → Bytes
unfolding piece
expand_rest s k [] = []
expand_rest s (suc k) (c ∷ p) = expand_rest s k p
expand_rest s zero (c ∷ p) = let r = piece s c p in r.0 ++ expand_rest s r.1 p

-- `expandPrompt`
unfoldable pub expand_prompt : PromptSource → Bytes → Bytes
unfolding expand_rest
expand_prompt s p = expand_rest s 0 p

-- `PS1`; `none` is a PS1 that was not set in the session
unfoldable pub ps1 : PromptSource → Option Bytes
unfolding equal expand_prompt var
ps1 s =
    let p = var s (codes "PS1") in if equal p s.ps1_start then none else some (expand_prompt s p)
