-- ===== src/Sed/Substitute.antt =====
-- shell/sed/sed.go: `expand`, and the loop of `substitute` over the matches.
use websh.Base.Int.{int_le, int_gt}
use websh.Sed.Types.{ReplPart, lit, group, case_op, Command}
use websh.Base.Utf8.{runes, encode_rune}
use websh.Base.{
  ℕ, zero, suc, ◌+◌, not, ◌&&◌, ◌||◌, Option, none, some, List, [], ◌∷◌, ◌++◌, ◌==◌, if◌then◌else◌,
  Bytes, length, drop, get_elem?, slice,
}
use websh.Sed.Host.{Match, Host}

-- `mode` and `once` of `expand`; 0 where none is set
pub record Casing : Type 0 where
  pub mode : ℕ
  pub once : ℕ

-- the `switch` of `emit`, for one rune
unfoldable pub convert : Host → Casing → ℕ → ℕ × Casing
convert h k r =
    if k.once == b'u'
    then (h.to_upper r, record k { once = 0 })
    else if k.once == b'l'
    then (h.to_lower r, record k { once = 0 })
    else if k.mode == b'U'
    then (h.to_upper r, k)
    else if k.mode == b'L'
    then (h.to_lower r, k)
    else (r, k)

-- `emit(s)` over the runes of `s`
unfoldable pub emit : Host → Casing → List ℕ → Bytes × Casing
unfolding convert encode_rune
emit h k [] = ([], k)
emit h k (r ∷ rs) =
    let (r', k') = convert h k r in let later = emit h k' rs in (encode_rune r' ++ later.0, later.1)

-- The bounds `m[2*g]`, `m[2*g+1]`, where the group is there and took part.
unfoldable pub group_bounds : Match → ℕ → Option (ℕ × ℕ)
group_bounds m zero = some (m.start, m.stop)
group_bounds m (suc g) = elim (get_elem? m.groups g) [ some b ↦ b | none ↦ none ]

expand_group : Host → Casing → Bytes → Option (ℕ × ℕ) → Bytes × Casing
unfolding emit runes
expand_group h k src none = ([], k)
expand_group h k src (some (a, b)) = emit h k (runes (slice a b src))

-- one round of the loop of `expand`
unfoldable pub expand_part : Host → Bytes → Match → Casing → ReplPart → Bytes × Casing
unfolding emit expand_group group_bounds runes
expand_part h src m k (lit s) = emit h k (runes s)
expand_part h src m k (group g) = expand_group h k src (group_bounds m g)
expand_part h src m k (case_op c) =
    if c == b'U' || c == b'L'
    then ([], record { mode = c; once = 0 })
    else if c == b'E'
    then ([], record { mode = 0; once = 0 })
    else ([], record k { once = c })

unfoldable pub expand_from : Host → Casing → List ReplPart → Bytes → Match → Bytes
unfolding expand_part
expand_from h k [] src m = []
expand_from h k (p ∷ ps) src m =
    let r = expand_part h src m k p in r.0 ++ expand_from h r.1 ps src m

-- `expand`: what it writes to the builder
unfoldable pub expand : Host → List ReplPart → Bytes → Match → Bytes
unfolding expand_from
expand h = expand_from h (record { mode = 0; once = 0 })

-- The loop of `substitute` from match `i` on, and the rest of the pattern space behind it.
unfoldable pub replace_loop : Host → Command → Bytes → ℕ → ℕ → List Match → Bytes
unfolding expand int_gt int_le
replace_loop h c ps i prev [] = drop prev ps
replace_loop h c ps i prev (m ∷ ms) =
    let skipped = replace_loop h c ps (i + 1) prev ms in
    let replaced = replace_loop h c ps (i + 1) m.stop ms in
    if int_gt c.nth (i + 1)
    then skipped
    else if int_le c.nth i && not c.global
    then drop prev ps
    else slice prev m.start ps ++ (expand h c.repl ps m ++ replaced)

-- The new pattern space of `substitute`; `none` where there are fewer than `nth` matches.
unfoldable pub replace_all : Host → Command → Bytes → List Match → Option Bytes
unfolding int_gt replace_loop
replace_all h c ps ms = if int_gt c.nth (length ms) then none else some (replace_loop h c ps 0 0 ms)
