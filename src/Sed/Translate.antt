-- ===== src/Sed/Translate.antt =====
-- shell/sed/regex.go: `translate`, from a sed regular expression to RE2 syntax. The loop index is a
-- list position: a step hands back how many of the bytes behind it it has taken as well.
pub mod Dialects
use websh.Base.Result.{plain, with_byte, with_text, Result, ok, err}
use websh.Base.Utf8.{encode_rune}
use websh.Base.{
  ℕ, zero, suc, ◌+◌, Bool, true, false, not, ◌&&◌, ◌||◌, none, some, [], ◌∷◌, ◌++◌, ◌==◌,
  if◌then◌else◌, Bytes, codes, one_of, within, take, index,
}

-- `regexp.QuoteMeta(string(c))`: the conversion encodes the byte as a rune.
unfoldable pub quote_meta : ℕ → Bytes
unfolding encode_rune
quote_meta c = if one_of (codes "\\.+*?()|[]{}^$") c then b'\\' ∷ c ∷ [] else encode_rune c

-- What one step of a loop writes, how many of the bytes behind its own it takes, and a flag:
-- `at_start` in `translate`, whether the bracket is closed in `bracket`.
pub record Step : Type 0 where
  pub out : Bytes
  pub taken : ℕ
  pub flag : Bool

abbrev pub step_to : Bytes → ℕ → Bool → Step
step_to o t f = record { out = o; taken = t; flag = f }

-- The byte `src[i+1]`, 0 where there is none; the source tests `i+1 < len(src)` in front.
abbrev pub next_byte : Bytes → ℕ
next_byte [] = 0
next_byte (c ∷ _) = c

-- `case '['` of `bracket`, with the bytes behind the `[`
bracket_open : Bytes → Result Step
unfolding index
bracket_open [] = ok (step_to (codes "\\[") 0 false)
bracket_open (d ∷ rest) =
    if d == b':'
    then (elim (index rest (codes ":]")) [
      | none ↦ err (plain "unterminated character class")
      | some e ↦ ok (step_to (b'[' ∷ b':' ∷ take (e + 2) rest) (e + 3) false)
    ])
    else if d == b'.' || d == b'='
    then err (plain "collating elements and equivalence classes are not supported")
    else ok (step_to (codes "\\[") 0 false)

-- `case '\\'` of `bracket`
bracket_escape : Bytes → Step
bracket_escape [] = step_to (codes "\\\\") 0 false
bracket_escape (d ∷ _) =
    if d == b'n'
    then step_to (codes "\\n") 1 false
    else if d == b't'
    then step_to (codes "\\t") 1 false
    else if d == b']'
    then step_to (codes "\\\\]") 1 true
    else if d == b'\\'
    then step_to (codes "\\\\") 1 false
    else step_to (codes "\\\\") 0 false

-- the `switch c` of `bracket`
unfoldable pub bracket_step : ℕ → Bytes → Result Step
unfolding bracket_escape bracket_open
bracket_step c rest =
    if c == b']'
    then ok (step_to (c ∷ []) 0 true)
    else if c == b'['
    then bracket_open rest
    else if c == b'\\'
    then ok (bracket_escape rest)
    else ok (step_to (c ∷ []) 0 false)

-- The `for` of `bracket`: the text written and the bytes read, the closing `]` included.
unfoldable pub bracket_loop : ℕ → Bytes → ℕ → Bytes → Result (Bytes × ℕ)
unfolding bracket_step
bracket_loop skip out n [] = err (plain "unterminated address regex")
bracket_loop (suc k) out n (c ∷ rest) = bracket_loop k out (n + 1) rest
bracket_loop zero out n (c ∷ rest) = elim (bracket_step c rest) [
  | err e ↦ err e
  | ok s ↦ elim s.flag [
    | true ↦ ok (out ++ s.out, n + 1 + s.taken)
    | false ↦ bracket_loop s.taken (out ++ s.out) (n + 1) rest
  ]
]

-- a `]` that stands first in the list
bracket_first : Bytes → ℕ → Bytes → Result (Bytes × ℕ)
unfolding bracket_loop
bracket_first out n [] = bracket_loop 0 out n []
bracket_first out n (c ∷ rest) =
    if c == b']'
    then bracket_loop 0 (out ++ codes "\\]") (n + 1) rest
    else bracket_loop 0 out n (c ∷ rest)

-- `bracket`, from the byte behind the `[`
unfoldable pub bracket : Bytes → Result (Bytes × ℕ)
unfolding bracket_first
bracket [] = bracket_first (codes "[") 0 []
bracket (c ∷ rest) =
    if c == b'^' then bracket_first (codes "[^") 1 rest else bracket_first (codes "[") 0 (c ∷ rest)

-- the inner `switch` of `translate`, at the byte behind a backslash
unfoldable pub translate_escape : Bool → ℕ → Bool → ℕ → Result Step
unfolding quote_meta
translate_escape ere delim was_start c =
    if c == delim && not (delim == b'n') && not (delim == b'\n')
    then ok (step_to (quote_meta c) 1 false)
    else if not ere && (c == b'(' || c == b'|')
    then ok (step_to (c ∷ []) 1 true)
    else if not ere && one_of (codes "){}+?") c
    then ok (
        if was_start && (c == b'+' || c == b'?')
        then step_to (b'\\' ∷ c ∷ []) 1 false
        else step_to (c ∷ []) 1 false)
    else if c == b'n'
    then ok (step_to (codes "\\n") 1 false)
    else if c == b't'
    then ok (step_to (codes "\\t") 1 false)
    else if c == b'<' || c == b'>'
    then ok (step_to (codes "\\b") 1 false)
    else if c == b'`'
    then ok (step_to (codes "\\A") 1 false)
    else if c == b'\''
    then ok (step_to (codes "\\z") 1 false)
    else if within b'1' b'9' c
    then err (with_byte "back-references in a pattern (\\%c) are not supported" c)
    else if one_of (codes "wWsSbBafvr") c
    then ok (step_to (b'\\' ∷ c ∷ []) 1 false)
    else ok (step_to (quote_meta c) 1 false)

-- `i+1 == len(src)`, or `\)` or `\|` follows
unfoldable pub ends_here : Bytes → Bool
ends_here [] = true
ends_here (c ∷ []) = false
ends_here (c ∷ d ∷ _) = c == b'\\' && (d == b')' || d == b'|')

-- the outer `switch` of `translate`, but for the backslash and the bracket
unfoldable pub translate_plain : Bool → Bool → ℕ → Bytes → Step
unfolding ends_here
translate_plain ere at_start c rest =
    if c == b'*'
    then step_to (if at_start then codes "\\*" else codes "*") 0 false
    else if c == b'^'
    then (if ere || at_start then step_to (c ∷ []) 0 at_start else step_to (codes "\\^") 0 false)
    else if c == b'$'
    then step_to (if ere || ends_here rest then codes "$" else codes "\\$") 0 false
    else if not ere && one_of (codes "(){}+?|") c
    then step_to (b'\\' ∷ c ∷ []) 0 false
    else if ere && (c == b'(' || c == b'|')
    then step_to (c ∷ []) 0 true
    else if ere && (c == b'+' || c == b'?' || c == b'{') && at_start
    then step_to (b'\\' ∷ c ∷ []) 0 false
    else step_to (c ∷ []) 0 false

translate_backslash : Bool → ℕ → Bool → Bytes → Result Step
unfolding translate_escape
translate_backslash ere delim at_start [] = err (plain "trailing backslash (\\)")
translate_backslash ere delim at_start (c ∷ _) = translate_escape ere delim at_start c

translate_bracket : Result (Bytes × ℕ) → Result Step
translate_bracket (ok (out, n)) = ok (step_to out n false)
translate_bracket (err e) = err e

-- one round of the loop of `translate`
unfoldable pub translate_step : Bool → ℕ → Bool → ℕ → Bytes → Result Step
unfolding bracket translate_backslash translate_bracket translate_plain
translate_step ere delim at_start c rest =
    if c == b'\\'
    then translate_backslash ere delim at_start rest
    else if c == b'['
    then translate_bracket (bracket rest)
    else ok (translate_plain ere at_start c rest)

-- the loop, with the bytes still to pass of what a step has taken
unfoldable pub translate_loop : Bool → ℕ → ℕ → Bool → Bytes → Bytes → Result Bytes
unfolding translate_step
translate_loop ere delim skip at_start out [] = ok out
translate_loop ere delim (suc k) at_start out (c ∷ rest) =
    translate_loop ere delim k at_start out rest
translate_loop ere delim zero at_start out (c ∷ rest) =
    elim (translate_step ere delim at_start c rest) [
      | err e ↦ err e
      | ok s ↦ translate_loop ere delim s.taken s.flag (out ++ s.out) rest
    ]

unfoldable pub translate : Bytes → Bool → ℕ → Result Bytes
unfolding translate_loop
translate src ere delim = translate_loop ere delim 0 true [] src

-- `compileRegex`: the text given to `regexp.Compile`, which `compiles` stands for.
unfoldable pub compile_regex : (Bytes → Bool) → Bytes → Bool → ℕ → Bool → Bool → Result Bytes
unfolding translate
compile_regex compiles src ere delim icase multiline = elim (translate src ere delim) [
  | err e ↦ err e
  | ok re ↦
      let flags =
        codes "s" ++ (if icase then codes "i" else []) ++ (if multiline then codes "m" else []) in
      let full = codes "(?" ++ flags ++ codes ")" ++ re in
      if compiles full then ok full else err (with_text "error parsing regexp" full)
]
