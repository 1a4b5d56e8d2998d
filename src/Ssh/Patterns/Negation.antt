-- ===== src/Ssh/Patterns/Negation.antt =====
-- The patterns of an entry: the order in which they stand does not matter.
use websh.Base.{
  ◌≡◌, refl, ◌&&◌, ◌||◌, Bool, true, false, not, List, [], ◌∷◌, ◌==◌, Bytes, arith, if◌then◌else◌,
}
use websh.Ssh.Library.{Library}
use websh.Ssh.Patterns.{negated, pattern_match, match_loop, hosts_match}

one_pattern :
    (neg hit behind bare m plain without skipped taken : Bool)
    → behind ≡ (neg && hit)
    → bare ≡ (not neg && hit)
    → skipped ≡ ((m || plain) && not without)
    → taken ≡ ((true || plain) && not without)
    → (if not hit then skipped else if neg then false else taken)
      ≡ ((m || (bare || plain)) && not (behind || without))
one_pattern true true behind bare m plain without skipped taken a b s t = ground arith
one_pattern true false behind bare m plain without skipped taken a b s t = ground arith
one_pattern false true behind bare m plain without skipped taken a b s t = ground arith
one_pattern false false behind bare m plain without skipped taken a b s t = ground arith

-- some pattern of an entry passes a test
abbrev pub some_pattern : (Bytes → Bool) → List Bytes → Bool
some_pattern f [] = false
some_pattern f (p ∷ ps) = f p || some_pattern f ps

module _ (l : Library) (host : Bytes) where
  -- a pattern with no `!` in front matches the name
  unfoldable pub names : Bytes → Bool
  names [] = pattern_match l [] host
  names (c ∷ p) = if c == b'!' then false else pattern_match l (c ∷ p) host

  -- a pattern begins with `!`, and what is behind that matches the name
  unfoldable pub excludes : Bytes → Bool
  excludes [] = false
  excludes (c ∷ p) = if c == b'!' then pattern_match l p host else false

  excludes-negated :
      (p : Bytes) → excludes p ≡ ((negated p).0 && pattern_match l (negated p).1 host)
  unfolding excludes negated
  excludes-negated [] = refl
  excludes-negated (c ∷ p) = ground arith

  names-negated : (p : Bytes) → names p ≡ (not (negated p).0 && pattern_match l (negated p).1 host)
  unfolding names negated
  names-negated [] = refl
  names-negated (c ∷ p) = ground arith

  match_loop-some_match :
      (m : Bool) (ps : List Bytes)
      → match_loop l m ps host ≡ ((m || some_pattern names ps) && not (some_pattern excludes ps))
  unfolding match_loop
  match_loop-some_match true [] = refl
  match_loop-some_match false [] = refl
  match_loop-some_match m (p ∷ ps) =
      one_pattern (negated p).0 (pattern_match l (negated p).1 host) (excludes p) (names p) m
        (some_pattern names ps) (some_pattern excludes ps) (match_loop l m ps host)
        (match_loop l true ps host) (excludes-negated p) (names-negated p)
        (match_loop-some_match m ps) (match_loop-some_match true ps)

  -- An entry names a host exactly when one of its patterns with no `!` in front matches the host's
  -- name, and no pattern does that stands behind a `!`, in whatever order they stand.
  pub hosts_match-some_match :
      (ps : List Bytes)
      → hosts_match l ps host ≡ (some_pattern names ps && not (some_pattern excludes ps))
  unfolding hosts_match
  hosts_match-some_match ps = match_loop-some_match false ps
