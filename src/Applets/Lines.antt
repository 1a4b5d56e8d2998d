-- ===== src/Applets/Lines.antt =====
-- shell/applets.go and applets2.go: head, tail, tac, nl, uniq, sort and grep, over lines.
use websh.Base.{
  ℕ, zero, suc, ◌-◌, Bool, true, false, not, ◌&&◌, Option, none, some, List, [], ◌∷◌, ◌++◌, ◌==◌,
  if◌then◌else◌, Bytes, codes, equal, one_of, length, take, drop, ltb, leb,
}
use websh.Base.Result.{Result, ok, err}
use websh.Base.Int.{ℤ, pos, negsuc}
use websh.Base.Decimal.{itoa, atoi}
use websh.Base.Paths.{reverse_onto}
use websh.Applets.{
  Handler, Done, prints, fail, refuse, parse_flags, count_args, head_tail_count, read_lines,
  print_lines,
}

-- an applet that prints what it makes of its lines
abbrev pub with_lines : Bytes → Result (List Bytes) → (List Bytes → Done) → Done
with_lines name (err e) then' = fail name e
with_lines name (ok ls) then' = then' ls

-- `lines[:n]`, or all of them; below 0 Go panics, and there is no result
unfoldable pub head_lines : ℤ → List Bytes → Option (List Bytes)
head_lines (pos n) ls = some (if ltb n (length ls) then take n ls else ls)
head_lines (negsuc n) ls = none

-- `lines[len(lines)-n:]`, or all of them
unfoldable pub tail_lines : ℤ → List Bytes → Option (List Bytes)
tail_lines (pos n) ls = some (if ltb n (length ls) then drop (length ls - n) ls else ls)
tail_lines (negsuc n) ls = none

abbrev print_some : Option (List Bytes) → Option Done
print_some none = none
print_some (some ls) = some (prints (print_lines ls))

abbrev pub counted :
    Bytes → (ℤ → List Bytes → Option (List Bytes)) → ℤ → Result (List Bytes) → Option Done
counted name cut n (err e) = some (fail name e)
counted name cut n (ok ls) = print_some (cut n ls)

-- `runHead`; `none` is a panic
unfoldable pub run_head : Handler → List Bytes → Option Done
unfolding count_args head_lines head_tail_count parse_flags print_lines read_lines
run_head h args =
    let f = parse_flags (count_args args) in
    let c = head_tail_count f.0 f.1 in counted (codes "head") head_lines c.0 (read_lines h c.1)

-- `runTail`
unfoldable pub run_tail : Handler → List Bytes → Option Done
unfolding count_args tail_lines head_tail_count parse_flags print_lines read_lines
run_tail h args =
    let f = parse_flags (count_args args) in
    let c = head_tail_count f.0 f.1 in counted (codes "tail") tail_lines c.0 (read_lines h c.1)

-- `runTac`
unfoldable pub run_tac : Handler → List Bytes → Done
unfolding parse_flags print_lines read_lines reverse_onto
run_tac h args =
    with_lines (codes "tac") (read_lines h (parse_flags args).1)
      (λ ls. prints (print_lines (reverse_onto ls [])))

-- `%6d` and `%7d`
unfoldable pub pad_left : ℕ → Bytes → Bytes
pad_left zero s = s
pad_left (suc w) s = if leb (suc w) (length s) then s else (let t = pad_left w s in b' ' ∷ t)

unfoldable pub numbered : ℕ → List Bytes → Bytes
unfolding itoa pad_left
numbered i [] = []
numbered i (l ∷ ls) = pad_left 6 (itoa i) ++ (b'\t' ∷ l ++ b'\n' ∷ numbered (suc i) ls)

-- `runNl`
unfoldable pub run_nl : Handler → List Bytes → Done
unfolding numbered parse_flags read_lines
run_nl h args =
    with_lines (codes "nl") (read_lines h (parse_flags args).1) (λ ls. prints (numbered 1 ls))

-- the loop of `uniq`, behind `count` lines `prev`: the runs that `flush` is called for
unfoldable pub runs_from : Bytes → ℕ → List Bytes → List (ℕ × Bytes)
unfolding equal
runs_from prev count [] = if count == 0 then [] else (count, prev) ∷ []
runs_from prev count (l ∷ ls) =
    let same = runs_from prev (suc count) ls in
    let other = runs_from l 1 ls in
    if ltb 0 count && equal l prev
    then same
    else if count == 0
    then other
    else (count, prev) ∷ other

-- what `flush` prints
unfoldable pub print_runs : Bool → List (ℕ × Bytes) → Bytes
unfolding itoa pad_left
print_runs counts [] = []
print_runs counts ((n, l) ∷ rs) =
    (if counts then pad_left 7 (itoa n) ++ (b' ' ∷ l) else l) ++ b'\n' ∷ print_runs counts rs

-- `runUniq`
unfoldable pub run_uniq : Handler → List Bytes → Done
unfolding parse_flags print_runs read_lines runs_from
run_uniq h args =
    let f = parse_flags args in
    with_lines (codes "uniq") (read_lines h f.1)
      (λ ls. prints (print_runs (one_of f.0 b'c') (runs_from [] 0 ls)))

-- `a < b` for strings, byte by byte
unfoldable pub less_text : Bytes → Bytes → Bool
less_text s [] = false
less_text [] (d ∷ t) = true
less_text (c ∷ s) (d ∷ t) = let rest = less_text s t in if c == d then rest else ltb c d

-- `a < b` for an `int`
abbrev pub less_int : ℤ → ℤ → Bool
less_int (pos a) (pos b) = ltb a b
less_int (pos a) (negsuc b) = false
less_int (negsuc a) (pos b) = true
less_int (negsuc a) (negsuc b) = ltb b a

-- an `int` behind an error is 0
abbrev pub or_zero : Option ℤ → ℤ
or_zero none = pos 0
or_zero (some n) = n

-- `numericKey(line)`; `trim` is `strings.TrimSpace`
unfoldable pub numeric_key : (Bytes → Bytes) → Bytes → ℤ
unfolding atoi
numeric_key trim line = or_zero (atoi (trim line))

-- `sort.SliceStable` by a test of `a < b`: a line goes in front of the first that it is not above
unfoldable pub insert_sorted : (Bytes → Bytes → Bool) → Bytes → List Bytes → List Bytes
insert_sorted less x [] = x ∷ []
insert_sorted less x (y ∷ ys) =
    let rest = insert_sorted less x ys in if less y x then y ∷ rest else x ∷ y ∷ ys

unfoldable pub sort_stable : (Bytes → Bytes → Bool) → List Bytes → List Bytes
unfolding insert_sorted
sort_stable less [] = []
sort_stable less (x ∷ xs) = insert_sorted less x (sort_stable less xs)

-- the order of `runSort`
unfoldable pub sort_less : (Bytes → Bytes) → Bool → Bytes → Bytes → Bool
unfolding less_text numeric_key
sort_less trim true a b = less_int (numeric_key trim a) (numeric_key trim b)
sort_less trim false a b = less_text a b

-- the lines sorted, and turned round where `-r` is given
unfoldable pub sort_lines : (Bytes → Bytes) → Bool → Bool → List Bytes → List Bytes
unfolding reverse_onto sort_less sort_stable
sort_lines trim numeric reversed ls =
    let sorted = sort_stable (sort_less trim numeric) ls in
    if reversed then reverse_onto sorted [] else sorted

-- `runSort`
unfoldable pub run_sort : (Bytes → Bytes) → Handler → List Bytes → Done
unfolding parse_flags print_lines read_lines sort_lines
run_sort trim h args =
    let f = parse_flags args in
    with_lines (codes "sort") (read_lines h f.1)
      (λ ls. prints (print_lines (sort_lines trim (one_of f.0 b'n') (one_of f.0 b'r') ls)))

-- the lines that `grep` takes, from line `i` on, with their numbers
unfoldable pub matching : (Bytes → Bool) → Bool → ℕ → List Bytes → List (ℕ × Bytes)
matching m inverted i [] = []
matching m inverted i (l ∷ ls) =
    let rest = matching m inverted (suc i) ls in
    if (if inverted then not (m l) else m l) then (i, l) ∷ rest else rest

unfoldable pub print_matches : Bool → List (ℕ × Bytes) → Bytes
unfolding itoa
print_matches numbers [] = []
print_matches numbers ((i, l) ∷ ms) =
    (if numbers then itoa i ++ (b':' ∷ l) else l) ++ b'\n' ∷ print_matches numbers ms

-- what `grep` prints and returns for the lines that it takes
unfoldable pub grep_done : Bytes → List (ℕ × Bytes) → Done
unfolding itoa print_matches
grep_done flags ms = record {
  code = if length ms == 0 then 1 else 0;
  out =
      if one_of flags b'c'
      then itoa (length ms) ++ b'\n' ∷ []
      else print_matches (one_of flags b'n') ms;
  errors = [];
}

abbrev grep_with : Handler → Bytes → List Bytes → Result (Bytes → Bool) → Done
grep_with h flags files (err e) = fail (codes "grep") e
grep_with h flags files (ok m) =
    with_lines (codes "grep") (read_lines h files)
      (λ ls. grep_done flags (matching m (one_of flags b'v') 1 ls))

abbrev grep_args : (Bytes → Result (Bytes → Bool)) → Handler → Bytes → List Bytes → Done
grep_args compile h flags [] = refuse 2 (codes "grep: missing pattern")
grep_args compile h flags (pattern ∷ files) =
    grep_with h flags files
      (compile (if one_of flags b'i' then codes "(?i)" ++ pattern else pattern))

-- `runGrep`; `compile` is `regexp.Compile` with `MatchString` of what it returns
unfoldable pub run_grep : (Bytes → Result (Bytes → Bool)) → Handler → List Bytes → Done
unfolding grep_done matching parse_flags read_lines
run_grep compile h args = let f = parse_flags args in grep_args compile h f.0 f.1
