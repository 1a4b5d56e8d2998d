-- ===== src/Applets/Cut.antt =====
-- shell/applets2.go: cut, by fields and by characters.
use websh.Base.{
  ℕ, zero, suc, ◌-◌, Bool, true, false, not, ◌&&◌, ◌||◌, Option, none, some, List, [], ◌∷◌, ◌++◌,
  if◌then◌else◌, Bytes, codes, equal, has_prefix, index, index_byte, length, take, drop, ltb, leb,
}
use websh.Base.Int.{ℤ, pos, negsuc, int_le, int_limit}
use websh.Base.Decimal.{atoi}
use websh.Base.Utf8.{decode_rune, runes, encode}
use websh.Base.Paths.{split_byte, join_with}
use websh.Applets.{Handler, Done, prints, refuse, read_lines, print_lines}
use websh.Applets.Lines.{with_lines}

-- `strings.Cut(s, sep)` for one byte
abbrev cut_found : Bytes → Option ℕ → Option (Bytes × Bytes)
cut_found s none = none
cut_found s (some i) = some (take i s, drop (suc i) s)

unfoldable pub cut_byte : ℕ → Bytes → Option (Bytes × Bytes)
unfolding index_byte
cut_byte b s = cut_found s (index_byte b s)

-- an end of a range, `edge` where nothing is written
abbrev range_end : ℤ → Bytes → Option ℤ
range_end edge [] = some edge
range_end edge (c ∷ s) = atoi (c ∷ s)

abbrev both : Option ℤ → Option ℤ → List (ℤ × ℤ)
both (some l) (some h) = (l, h) ∷ []
both (some l) none = []
both none h = []

abbrev part_range : Bytes → Option (Bytes × Bytes) → List (ℤ × ℤ)
part_range part (some (lo, hi)) = both (range_end (pos 1) lo) (range_end (pos (int_limit - 1)) hi)
part_range part none = both (atoi part) (atoi part)

unfoldable pub part_ranges : List Bytes → List (ℤ × ℤ)
unfolding atoi cut_byte
part_ranges [] = []
part_ranges (part ∷ parts) = part_range part (cut_byte b'-' part) ++ part_ranges parts

-- the ranges of `parseFieldList(spec)`
unfoldable pub parse_field_list : Bytes → List (ℤ × ℤ)
unfolding part_ranges split_byte
parse_field_list spec = let parts = split_byte b',' spec in part_ranges (parts.0 ∷ parts.1)

-- `n <= a` for a count and an `int`
abbrev at_most : ℕ → ℤ → Bool
at_most n (pos a) = leb n a
at_most n (negsuc a) = false

-- the function that `parseFieldList` returns
unfoldable pub wanted : List (ℤ × ℤ) → ℕ → Bool
unfolding int_le
wanted [] n = false
wanted ((lo, hi) ∷ rs) n = (int_le lo n && at_most n hi) || wanted rs n

-- the items of a list that are wanted, the first of them the `i`th
unfoldable pub pick {ℓ} : {A : Type ℓ} → (ℕ → Bool) → ℕ → List A → List A
pick want i [] = []
pick want i (x ∷ xs) = let later = pick want (suc i) xs in if want i then x ∷ later else later

-- the options of `cut`, and the files
pub record CutOptions : Type 0 where
  pub delim : Bytes
  pub field_spec : Bytes
  pub char_spec : Bytes
  pub files : List Bytes

pub data Choice : Type 0 where
  delim_choice field_choice char_choice : Choice

-- What an argument is to the loop of `runCut`.
pub data CutArgument : Type 0 where
  takes_next : Choice → CutArgument
  gives : Choice → Bytes → CutArgument
  file_name : CutArgument

-- the two cases of the switch for one letter
abbrev choice_case : Bool → Bytes → Choice → Bytes → CutArgument → CutArgument
unfolding equal has_prefix
choice_case more flag k a other =
    if equal a flag && more
    then takes_next k
    else if has_prefix a flag && ltb 2 (length a)
    then gives k (drop 2 a)
    else other

unfoldable pub cut_argument : Bool → Bytes → CutArgument
unfolding equal has_prefix
cut_argument more a = choice_case more (codes "-d") delim_choice a (
    choice_case more (codes "-f") field_choice a
      (choice_case more (codes "-c") char_choice a file_name))

abbrev set_choice : Choice → Bytes → CutOptions → CutOptions
set_choice delim_choice v c = record {
  delim = v;
  field_spec = c.field_spec;
  char_spec = c.char_spec;
  files = c.files;
}
set_choice field_choice v c = record {
  delim = c.delim;
  field_spec = v;
  char_spec = c.char_spec;
  files = c.files;
}
set_choice char_choice v c = record {
  delim = c.delim;
  field_spec = c.field_spec;
  char_spec = v;
  files = c.files;
}

abbrev add_file : Bytes → CutOptions → CutOptions
add_file a c = record {
  delim = c.delim;
  field_spec = c.field_spec;
  char_spec = c.char_spec;
  files = c.files ++ a ∷ [];
}

-- the loop over the arguments of `cut`
unfoldable pub cut_options : CutOptions → List Bytes → CutOptions
unfolding cut_argument
cut_options c [] = c
cut_options c (a ∷ []) = elim (cut_argument false a) [
  | takes_next k ↦ c
  | gives k v ↦ set_choice k v c
  | file_name ↦ add_file a c
]
cut_options c (a ∷ b ∷ rest) = elim (cut_argument true a) [
  | takes_next k ↦ cut_options (set_choice k b c) rest
  | gives k v ↦ cut_options (set_choice k v c) (b ∷ rest)
  | file_name ↦ cut_options (add_file a c) (b ∷ rest)
]

-- `strings.Split(s, "")`, behind `k` bytes more of a rune
unfoldable pub explode_from : ℕ → Bytes → Bytes × List Bytes
unfolding decode_rune
explode_from k [] = ([], [])
explode_from (suc k) (c ∷ s) = let r = explode_from k s in (c ∷ r.0, r.1)
explode_from zero (c ∷ s) = let r = explode_from (decode_rune c s).1 s in ([], (c ∷ r.0) ∷ r.1)

-- `strings.Split(s, sep)`, behind `k` bytes more of a separator: the first part and the others
unfoldable pub split_from : Bytes → ℕ → Bytes → Bytes × List Bytes
unfolding has_prefix
split_from sep k [] = ([], [])
split_from sep (suc k) (c ∷ s) = split_from sep k s
split_from sep zero (c ∷ s) = elim (has_prefix (c ∷ s) sep) [
  | true ↦ let r = split_from sep (length sep - 1) s in ([], r.0 ∷ r.1)
  | false ↦ let r = split_from sep 0 s in (c ∷ r.0, r.1)
]

unfoldable pub split_on : Bytes → Bytes → List Bytes
unfolding explode_from split_from
split_on [] s = (explode_from 0 s).1
split_on (d ∷ sep) s = let r = split_from (d ∷ sep) 0 s in r.0 ∷ r.1

abbrev cut_at_delim : Bytes → List (ℤ × ℤ) → Bytes → Option ℕ → Bytes
cut_at_delim delim rs l none = l
cut_at_delim delim rs l (some i) = join_with delim (pick (wanted rs) 1 (split_on delim l))

-- one line of `cut -f` and of `cut -c`
unfoldable pub cut_fields : Bytes → List (ℤ × ℤ) → Bytes → Bytes
unfolding index join_with pick split_on wanted
cut_fields delim rs l = cut_at_delim delim rs l (index l delim)

unfoldable pub cut_chars : List (ℤ × ℤ) → Bytes → Bytes
unfolding encode pick runes wanted
cut_chars rs l = encode (pick (wanted rs) 1 (runes l))

unfoldable pub each_line : (Bytes → Bytes) → List Bytes → List Bytes
each_line f [] = []
each_line f (l ∷ ls) = f l ∷ each_line f ls

-- what `cut` prints of its lines
unfoldable pub cut_lines : CutOptions → List Bytes → List Bytes
unfolding cut_chars cut_fields each_line equal parse_field_list
cut_lines c ls =
    if not (equal c.char_spec [])
    then each_line (cut_chars (parse_field_list c.char_spec)) ls
    else each_line (cut_fields c.delim (parse_field_list c.field_spec)) ls

-- the options before the loop
abbrev cut_start : List Bytes → CutOptions
cut_start files = record { delim = b'\t' ∷ []; field_spec = []; char_spec = []; files = files }

-- `runCut`
unfoldable pub run_cut : Handler → List Bytes → Done
unfolding cut_lines cut_options equal print_lines read_lines
run_cut h args =
    let c = cut_options (cut_start []) args in
    if equal c.field_spec [] && equal c.char_spec []
    then refuse 1 (codes "cut: specify -f or -c")
    else with_lines (codes "cut") (read_lines h c.files)
        (λ ls. prints (print_lines (cut_lines c ls)))
