-- ===== src/Applets/Files/Find.antt =====
-- shell/applets2.go: find and du, over the walk of a directory.
use websh.Base.{
  ℕ, Bool, true, false, not, ◌&&◌, ◌||◌, Option, none, some, List, [], ◌∷◌, ◌++◌, ◌==◌,
  if◌then◌else◌, Bytes, codes, equal, has_prefix, one_of,
}
use websh.Base.Result.{Fault, Result, ok, err}
use websh.Base.Int.{ℤ, pos}
use websh.Base.Decimal.{itoa_int}
use websh.Base.Paths.{dir_path, join_path}
use websh.Applets.{Complaint, Done, prints, parse_flags, resolve_arg}
use websh.Applets.Numbers.{add_int}
use websh.Applets.Files.{Info}
use websh.Applets.Files.Listing.{FileReads}

-- the options of `find`; no type is 0
pub record FindOptions : Type 0 where
  pub root : Bytes
  pub name_pat : Bytes
  pub type_filter : ℕ

abbrev pub find_type : Bytes → FindOptions → FindOptions
find_type [] o = o
find_type (c ∷ s) o = record { root = o.root; name_pat = o.name_pat; type_filter = c }

-- What an argument is to the loop of `runFind`.
pub data FindArgument : Type 0 where
  name_option type_option root_argument other_option : FindArgument

unfoldable pub find_argument : Bytes → FindArgument
unfolding equal has_prefix
find_argument a =
    if equal a (codes "-name")
    then name_option
    else if equal a (codes "-type")
    then type_option
    else if has_prefix a (codes "-")
    then other_option
    else root_argument

abbrev pub find_root : Bytes → FindOptions → FindOptions
find_root a o = record { root = a; name_pat = o.name_pat; type_filter = o.type_filter }

abbrev pub find_name : Bytes → FindOptions → FindOptions
find_name a o = record { root = o.root; name_pat = a; type_filter = o.type_filter }

-- the loop over the arguments of `find`
unfoldable pub find_options : FindOptions → List Bytes → FindOptions
unfolding find_argument
find_options o [] = o
find_options o (a ∷ []) = elim (find_argument a) [ root_argument ↦ find_root a o | _ ↦ o ]
find_options o (a ∷ b ∷ rest) = elim (find_argument a) [
  | name_option ↦ find_options (find_name b o) rest
  | type_option ↦ find_options (find_type b o) rest
  | root_argument ↦ find_options (find_root a o) (b ∷ rest)
  | other_option ↦ find_options o (b ∷ rest)
]

-- a path below `base` as it is printed below `root`; `rel` is `filepath.Rel`
abbrev pub relative : Bytes → Bytes → Result Bytes → Bytes
unfolding equal join_path
relative root p (err e) = p
relative root p (ok r) = if equal r (codes ".") then root else join_path root r

-- whether the type leaves a file out
abbrev pub filtered : ℕ → Bool → Bool
filtered type_filter is_dir = (type_filter == b'f' && is_dir) || (type_filter == b'd' && not is_dir)

abbrev pub name_matches : (Bytes → Bytes → Result Bool) → Bytes → Bytes → Result Bool
unfolding equal
name_matches match' pat name = if equal pat [] then ok true else match' pat name

-- one file that is not left out by its type, with what is found behind it
abbrev pub find_next : Bytes → Result Bool → Bytes × Option Fault → Bytes × Option Fault
find_next l (err e) later = ([], some e)
find_next l (ok true) later = (l ++ b'\n' ∷ later.0, later.1)
find_next l (ok false) later = later

abbrev pub find_one :
    FindOptions
    → (Bytes → Result Bytes)
    → (Bytes → Bytes → Result Bool)
    → Bytes
    → Result Info
    → Bytes × Option Fault
    → Bytes × Option Fault
unfolding equal join_path
find_one o rel match' p (err e) later = later
find_one o rel match' p (ok i) later =
    if filtered o.type_filter i.is_dir
    then later
    else find_next (relative o.root p (rel p)) (name_matches match' o.name_pat i.name) later

unfoldable pub find_files :
    FindOptions
    → (Bytes → Result Bytes)
    → (Bytes → Bytes → Result Bool)
    → List (Bytes × Result Info)
    → Bytes × Option Fault
unfolding equal join_path
find_files o rel match' [] = ([], none)
find_files o rel match' ((p, i) ∷ ps) = find_one o rel match' p i (find_files o rel match' ps)

abbrev pub find_done : Bytes × Option Fault → Done
find_done (out, none) = prints out
find_done (out, some e) = record {
  code = 1;
  out = out;
  errors = Complaint.failed (codes "find") e ∷ [];
}

-- `runFind`; `rel` is `filepath.Rel`, and `match'` is `path.Match`
unfoldable pub run_find :
    FileReads
    → (Bytes → Bytes → Result Bytes)
    → (Bytes → Bytes → Result Bool)
    → Bytes
    → List Bytes
    → Done
unfolding find_files find_options resolve_arg
run_find fs rel match' dir args =
    let o =
      find_options (find_root (codes ".") (record { root = []; name_pat = []; type_filter = 0 }))
        args in
    let base = resolve_arg dir o.root in find_done (find_files o (rel base) match' (fs.walk base))

-- `dirTotals[dir] += size`, and the key with 0 where there is none
unfoldable pub add_total : Bytes → ℤ → List (Bytes × ℤ) → List (Bytes × ℤ)
unfolding add_int equal
add_total dir size [] = (dir, add_int (pos 0) size) ∷ []
add_total dir size ((d, n) ∷ totals) =
    let later = add_total dir size totals in
    if equal d dir then (d, add_int n size) ∷ totals else (d, n) ∷ later

-- one file of the walk, behind the totals and the sum of the ones in front of it
abbrev pub du_one : Bytes → Result Info → List (Bytes × ℤ) × ℤ → List (Bytes × ℤ) × ℤ
unfolding add_int add_total dir_path
du_one p (err e) t = t
du_one p (ok i) t =
    if i.is_dir
    then (add_total p (pos 0) t.0, t.1)
    else (add_total (dir_path p) (pos i.size) t.0, add_int t.1 (pos i.size))

unfoldable pub du_files : List (Bytes × Result Info) → List (Bytes × ℤ) × ℤ → List (Bytes × ℤ) × ℤ
unfolding add_int add_total dir_path
du_files [] t = t
du_files ((p, i) ∷ ps) t = du_files ps (du_one p i t)

-- a directory as `du` prints it
abbrev pub du_name : Bytes → Bytes → Result Bytes → Bytes
unfolding equal join_path
du_name root dir (err e) = dir
du_name root dir (ok r) = if equal r (codes ".") then root else join_path root r

abbrev pub du_line : ℤ → Bytes → Bytes
unfolding itoa_int
du_line size name = itoa_int size ++ (b'\t' ∷ name ++ b'\n' ∷ [])

unfoldable pub du_lines : Bytes → (Bytes → Result Bytes) → List (Bytes × ℤ) → Bytes
unfolding equal itoa_int join_path
du_lines root rel [] = []
du_lines root rel ((d, n) ∷ totals) = du_line n (du_name root d (rel d)) ++ du_lines root rel totals

abbrev root_or_dot : List Bytes → Bytes
root_or_dot [] = codes "."
root_or_dot (a ∷ rest) = a

-- `runDu`; the order of the lines is the map's, here that of the walk
unfoldable pub run_du : FileReads → (Bytes → Bytes → Result Bytes) → Bytes → List Bytes → Done
unfolding du_files du_lines itoa_int parse_flags resolve_arg
run_du fs rel dir args =
    let f = parse_flags args in
    let root = root_or_dot f.1 in
    let base = resolve_arg dir root in
    let totals = du_files (fs.walk base) ([], pos 0) in
    prints (if one_of f.0 b's' then du_line totals.1 root else du_lines root (rel base) totals.0)
