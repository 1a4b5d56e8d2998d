-- ===== src/Applets/Text.antt =====
-- shell/applets.go and applets2.go: wc, tr, xargs, basename and dirname.
use websh.Base.{
  ℕ, zero, suc, ◌-◌, Bool, true, false, ◌&&◌, ◌||◌, Option, none, some, List, [], ◌∷◌, ◌++◌, ◌==◌,
  if◌then◌else◌, Bytes, codes, equal, one_of, length, get_elem?, leb,
}
use websh.Base.Result.{Result, ok, err}
use websh.Base.Decimal.{itoa}
use websh.Base.Utf8.{runes, encode}
use websh.Base.Paths.{join_with, base_path, dir_path}
use websh.Applets.{Handler, Done, prints, fail, refuse, parse_flags, read_input}
use websh.Applets.Lines.{pad_left}

-- a text and a newline
abbrev with_newline : Bytes → Bytes
with_newline s = s ++ b'\n' ∷ []

unfoldable pub count_byte : ℕ → Bytes → ℕ
count_byte b [] = 0
count_byte b (c ∷ s) = let later = count_byte b s in if c == b then suc later else later

abbrev if_flag : Bool → ℕ → List Bytes → List Bytes
if_flag given n out = if given then itoa n ∷ out else out

-- what `wc` prints of its counts
unfoldable pub print_counts : Bytes → ℕ → ℕ → ℕ → Bytes
unfolding itoa join_with pad_left
print_counts flags lines words bytes =
    let some_flag = one_of flags b'l' || one_of flags b'w' || one_of flags b'c' in
    let chosen =
      if_flag (one_of flags b'l') lines
        (if_flag (one_of flags b'w') words (if_flag (one_of flags b'c') bytes [])) in
    if some_flag
    then with_newline (join_with (codes " ") chosen)
    else with_newline (
        pad_left 7 (itoa lines)
        ++ (b' ' ∷ pad_left 7 (itoa words) ++ (b' ' ∷ pad_left 7 (itoa bytes))))

abbrev wc_of : (Bytes → List Bytes) → Bytes → Result Bytes → Done
wc_of fields flags (err e) = fail (codes "wc") e
wc_of fields flags (ok s) =
    prints (print_counts flags (count_byte b'\n' s) (length (fields s)) (length s))

-- `runWc`; `fields` is `strings.Fields`
unfoldable pub run_wc : (Bytes → List Bytes) → Handler → List Bytes → Done
unfolding count_byte parse_flags print_counts read_input
run_wc fields h args = let f = parse_flags args in wc_of fields f.0 (read_input h f.1)

-- `n` runes from `r` on
unfoldable pub rune_range : ℕ → ℕ → List ℕ
rune_range r zero = []
rune_range r (suc n) = r ∷ rune_range (suc r) n

-- the loop of `expandTrSet`
unfoldable pub expand_runes : List ℕ → List ℕ
unfolding rune_range
expand_runes [] = []
expand_runes (a ∷ []) = a ∷ []
expand_runes (a ∷ d ∷ []) = a ∷ d ∷ []
expand_runes (a ∷ d ∷ z ∷ rest) = elim (d == b'-' && leb a z) [
  | true ↦ rune_range a (suc z - a) ++ expand_runes rest
  | false ↦ a ∷ expand_runes (d ∷ z ∷ rest)
]

-- `expandTrSet(s)`
unfoldable pub expand_tr_set : Bytes → List ℕ
unfolding expand_runes runes
expand_tr_set s = expand_runes (runes s)

abbrev pair_with : ℕ → Option ℕ → List (ℕ × ℕ) → List (ℕ × ℕ)
pair_with r none later = later
pair_with r (some t) later = (r, t) ∷ later

-- the writes to the map `m`, from index `i` on
unfoldable pub tr_pairs : List ℕ → ℕ → List ℕ → List (ℕ × ℕ)
tr_pairs set2 i [] = []
tr_pairs set2 i (r ∷ rs) =
    let j = if leb (length set2) i then length set2 - 1 else i in
    pair_with r (get_elem? set2 j) (tr_pairs set2 (suc i) rs)

abbrev first_of : Option ℕ → Option ℕ → Option ℕ
first_of (some t) later = some t
first_of none later = later

-- `m[r]`: the last write stays
unfoldable pub lookup_last : List (ℕ × ℕ) → ℕ → Option ℕ
lookup_last [] r = none
lookup_last ((q, t) ∷ m) r = first_of (lookup_last m r) (if q == r then some t else none)

abbrev repl_or : ℕ → Option ℕ → ℕ
repl_or r none = r
repl_or r (some t) = t

unfoldable pub tr_runes : List (ℕ × ℕ) → List ℕ → List ℕ
unfolding lookup_last
tr_runes m [] = []
tr_runes m (r ∷ rs) = repl_or r (lookup_last m r) ∷ tr_runes m rs

unfoldable pub delete_runes : List ℕ → List ℕ → List ℕ
delete_runes del [] = []
delete_runes del (r ∷ rs) =
    let later = delete_runes del rs in if one_of del r then later else r ∷ later

abbrev tr_data : Bytes → Bytes → List Bytes → Result Bytes → Done
tr_data flags a more (err e) = fail (codes "tr") e
tr_data flags a more (ok s) =
    if one_of flags b'd'
    then prints (encode (delete_runes (expand_tr_set a) (runes s)))
    else elim more [
      | [] ↦ refuse 1 (codes "tr: missing set2")
      | b ∷ _ ↦
          prints (encode (tr_runes (tr_pairs (expand_tr_set b) 0 (expand_tr_set a)) (runes s)))
    ]

-- `runTr`
abbrev tr_args : Handler → Bytes → List Bytes → Done
tr_args h flags [] = refuse 1 (codes "usage: tr [-d] set1 [set2]")
tr_args h flags (a ∷ more) = tr_data flags a more h.stdin

unfoldable pub run_tr : Handler → List Bytes → Done
unfolding delete_runes encode expand_tr_set parse_flags runes tr_pairs tr_runes
run_tr h args = let f = parse_flags args in tr_args h f.0 f.1

-- an applet by its name
abbrev pub Applets : Type 0
Applets = Bytes → Option (Handler → List Bytes → Done)

abbrev run_applet : Handler → Bytes → List Bytes → Option (Handler → List Bytes → Done) → Done
run_applet h name full (some run) = run h full
run_applet h name full none =
    refuse 127
      (codes "xargs: " ++ (name ++ codes ": not an applet (xargs can only run applets and echo)"))

abbrev xargs_run : Applets → Handler → Bytes → List Bytes → Done
xargs_run applets h name full =
    if equal name (codes "echo")
    then prints (with_newline (join_with (codes " ") full))
    else run_applet h name full (applets name)

abbrev xargs_with : Applets → (Bytes → List Bytes) → Handler → List Bytes → Result Bytes → Done
xargs_with applets fields h args (err e) = fail (codes "xargs") e
xargs_with applets fields h [] (ok s) = xargs_run applets h (codes "echo") (fields s)
xargs_with applets fields h (name ∷ args) (ok s) = xargs_run applets h name (args ++ fields s)

-- `runXargs`; an applet that it runs finds the input at its end
unfoldable pub run_xargs : Applets → (Bytes → List Bytes) → Handler → List Bytes → Done
unfolding equal join_with
run_xargs applets fields h args =
    xargs_with applets fields (record { stdin = ok []; dir = h.dir; read_file = h.read_file }) args
      h.stdin

-- `runBasename`
unfoldable pub run_basename : List Bytes → Done
unfolding base_path
run_basename [] = refuse 1 (codes "basename: missing operand")
run_basename (a ∷ args) = prints (with_newline (base_path a))

-- `runDirname`
unfoldable pub run_dirname : List Bytes → Done
unfolding dir_path
run_dirname [] = refuse 1 (codes "dirname: missing operand")
run_dirname (a ∷ args) = prints (with_newline (dir_path a))
