-- ===== src/Prompt/Witnesses.antt =====
-- The prompt's theorems for a session, and some prompts expanded.
use websh.Base.{
  ◌≡◌, refl, false, Option, none, some, [], ◌==◌, if◌then◌else◌, arith, Bytes, codes, equal,
}
use websh.Prompt.{PromptSource, expand_prompt, ps1}
use websh.Prompt.Quoted.{quote, no_bytes, one_byte, expand_prompt-quote}

abbrev values : Bytes → Option (Option Bytes)
unfolding equal
values name =
    if equal name (codes "USER")
    then some (some (codes "me"))
    else if equal name (codes "HOME")
    then some (some (codes "/home/me"))
    else if equal name (codes "EUID")
    then some (some (codes "1000"))
    else if equal name (codes "PS1")
    then some (some (codes "\\u$"))
    else some none

abbrev session : PromptSource
session = record {
  vars = values;
  env = λ name. [];
  dir = codes "/home/me/src";
  hostname = codes "box.lan";
  euid_is_zero = false;
  clock = λ layout. layout;
  ps1_start = [];
}

prompts_expanded :
    (expand_prompt session (codes "\\u@\\h:\\W\\$ ") ≡ codes "me@box:src$ ")
    × (expand_prompt session (codes "${USER}$?\\w\\q\\101") ≡ codes "me$?~/src\\qA")
    × (ps1 session ≡ some (codes "me$"))
unfolding equal expand_prompt ps1
prompts_expanded = (refl, refl, refl)

expand_prompt-quote_example :
    expand_prompt session (quote (λ c. c == b'a') (codes "a$b\\")) ≡ codes "a$b\\"
expand_prompt-quote_example =
    expand_prompt-quote session (λ c. c == b'a') (codes "a$b\\")
      (one_byte (omega arith)
        (one_byte (omega arith) (one_byte (omega arith) (one_byte (omega arith) no_bytes))))
