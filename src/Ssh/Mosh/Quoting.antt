-- ===== src/Ssh/Mosh/Quoting.antt =====
-- A quoted word reaches a POSIX shell as it is.
use websh.Base.{
  ℕ, Bool, true, false, Option, none, some, [], ◌∷◌, ◌==◌, Bytes, ◌||◌, codes, leb, one_of,
}

-- Where a POSIX shell is in a word: outside of quotes, inside of them, or behind a backslash.
pub data WordMode : Type 0 where
  bare inside behind : WordMode

abbrev cons_some : ℕ → Option Bytes → Option Bytes
cons_some c none = none
cons_some c (some s) = some (c ∷ s)

-- The bytes that mean something to a POSIX shell where they stand outside of quotes: blanks, line
-- feeds and other control bytes, and the characters of operators, expansions, quotes, patterns,
-- comments, home directories, braces and histories. `=`, `-` and `,` are not among them: they mean
-- something only in an assignment before the command, in brackets and in braces.
unfoldable special : ℕ → Bool
special c = leb c b' ' || one_of (codes "|&;<>()$`\\\"'*?[]#~%!{}^") c

-- The one word that a POSIX shell reads in a text; none where the text is not one word, or has a
-- character outside of quotes that means something to the shell.
unfoldable pub shell_word : WordMode → Bytes → Option Bytes
unfolding special
shell_word bare [] = some []
shell_word inside [] = none
shell_word behind [] = none
shell_word inside (c ∷ s) = elim (c == b'\'') [
  | true ↦ shell_word bare s
  | false ↦ cons_some c (shell_word inside s)
]
shell_word behind (c ∷ s) = cons_some c (shell_word bare s)
shell_word bare (c ∷ s) = elim (c == b'\'') [
  | true ↦ shell_word inside s
  | false ↦ elim (c == b'\\') [
    | true ↦ shell_word behind s
    | false ↦ elim (special c) [ true ↦ none | false ↦ cons_some c (shell_word bare s) ]
  ]
]
