-- ===== src/Ssh/Patterns.antt =====
-- shell/ssh/knownhosts.go: which host names the patterns of an entry match.
pub mod Globs
pub mod Negation
use websh.Base.{
  ℕ, ◌&&◌, ◌||◌, Bool, true, false, not, Option, none, some, List, [], ◌∷◌, ◌==◌, if◌then◌else◌,
  Bytes, codes, drop, equal, has_prefix, one_of,
}
use websh.Ssh.Library.{Library}

-- the loop of the case `*`, over the suffixes of `s` from the empty one on
unfoldable pub any_suffix : (Bytes → Bool) → Bytes → Bool
any_suffix f [] = f []
any_suffix f (c ∷ s) = any_suffix f s || f (c ∷ s)

-- one byte of the pattern that is no `*`, and what is left of the pattern
unfoldable pub match_byte : ℕ → (Bytes → Bool) → Bytes → Bool
match_byte c rest [] = false
match_byte c rest (d ∷ s) = (c == b'?' || c == d) && rest s

-- `globMatch(p, s)`
unfoldable pub glob_match : Bytes → Bytes → Bool
unfolding any_suffix match_byte
glob_match [] [] = true
glob_match [] (d ∷ s) = false
glob_match (c ∷ p) s =
    if c == b'*' then any_suffix (glob_match p) s else match_byte c (glob_match p) s

-- `strings.Cut(s, "|")`
abbrev behind : ℕ → Option (Bytes × Bytes) → Option (Bytes × Bytes)
behind c none = none
behind c (some (a, b)) = some (c ∷ a, b)

unfoldable pub cut_bar : Bytes → Option (Bytes × Bytes)
cut_bar [] = none
cut_bar (c ∷ s) = let later = behind c (cut_bar s) in if c == b'|' then some ([], s) else later

unfoldable pub has_wildcard : Bytes → Bool
has_wildcard [] = false
has_wildcard (c ∷ p) = one_of (codes "*?") c || has_wildcard p

-- a hashed name: the text behind `|1|`
unfoldable pub hashed_match : Library → Bytes → Bytes → Bool
unfolding cut_bar equal
hashed_match l p host = elim (cut_bar p) [
  | none ↦ false
  | some (salt64, hash64) ↦ elim (l.decode64 salt64) [
    | none ↦ false
    | some salt ↦ elim (l.decode64 hash64) [
      | none ↦ false
      | some want ↦ equal (l.hmac salt host) want
    ]
  ]
]

-- `patternMatch(p, host)`
unfoldable pub pattern_match : Library → Bytes → Bytes → Bool
unfolding glob_match has_prefix has_wildcard hashed_match
pattern_match l p host =
    if has_prefix p (codes "|1|")
    then hashed_match l (drop 3 p) host
    else if not (has_wildcard p)
    then l.equal_fold p host
    else glob_match (l.to_lower p) (l.to_lower host)

-- whether a pattern begins with `!`, and the pattern without it
unfoldable pub negated : Bytes → Bool × Bytes
negated [] = (false, [])
negated (c ∷ p) = if c == b'!' then (true, p) else (false, c ∷ p)

-- the loop of `hostsMatch`
unfoldable pub match_loop : Library → Bool → List Bytes → Bytes → Bool
unfolding negated pattern_match
match_loop l matched [] host = matched
match_loop l matched (p ∷ ps) host =
    let skipped = match_loop l matched ps host in
    let taken = match_loop l true ps host in
    let n = negated p in
    if not (pattern_match l n.1 host) then skipped else if n.0 then false else taken

-- `hostsMatch(patterns, host)`
unfoldable pub hosts_match : Library → List Bytes → Bytes → Bool
unfolding match_loop
hosts_match l patterns host = match_loop l false patterns host
