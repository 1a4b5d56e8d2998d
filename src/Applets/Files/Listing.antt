-- ===== src/Applets/Files/Listing.antt =====
-- shell/applets.go and applets2.go: cat, ls, tree and stat, which only read the files.
use websh.Base.{
  ℕ, zero, suc, Bool, not, ◌&&◌, Option, none, some, List, [], ◌∷◌, ◌++◌, ◌==◌, if◌then◌else◌,
  Bytes, codes, has_prefix, one_of, length, ltb,
}
use websh.Base.Result.{Fault, Result, ok, err}
use websh.Base.Decimal.{itoa}
use websh.Base.Utf8.{encode}
use websh.Base.Paths.{join_path}
use websh.Applets.{Handler, Complaint, Done, prints, fail, refuse, parse_flags, resolve_arg}
use websh.Applets.Files.{Info}

-- what is done first, and what then; the exit code is that of a failure
unfoldable pub also : Done → Done → Done
also a b = record {
  code = if a.code == 0 then b.code else a.code;
  out = a.out ++ b.out;
  errors = a.errors ++ b.errors;
}

-- What of the files these applets read.
pub record FileReads : Type 0 where
  pub stat : Bytes → Result Info
  pub read_dir : Bytes → Result (List Info)
  -- what `afero.Walk` calls its function with
  pub walk : Bytes → List (Bytes × Result Info)

abbrev cat_next : Result Bytes → Done → Done
unfolding also
cat_next (err e) later = fail (codes "cat") e
cat_next (ok s) later = also (prints s) later

unfoldable pub cat_files : Handler → List Bytes → Done
unfolding also resolve_arg
cat_files h [] = prints []
cat_files h (a ∷ rest) = cat_next (h.read_file (resolve_arg h.dir a)) (cat_files h rest)

abbrev pub cat_args : Handler → List Bytes → Done
unfolding also cat_files
cat_args h [] = cat_next h.stdin (prints [])
cat_args h (a ∷ rest) = cat_files h (a ∷ rest)

-- `runCat`; a file is read as a whole
unfoldable pub run_cat : Handler → List Bytes → Done
unfolding also cat_files parse_flags
run_cat h args = cat_args h (parse_flags args).1

-- the `ls` package's `FileString` of a path and a file
abbrev pub Stringer : Type 0
Stringer = Bytes → Info → Bytes

-- the entries of a directory, as `ls` prints them
unfoldable pub ls_entries : Stringer → Bytes → Bytes → List Info → Bytes
unfolding has_prefix join_path
ls_entries show flags path [] = []
ls_entries show flags path (i ∷ is) =
    let later = ls_entries show flags path is in
    let name = show (join_path path i.name) i in
    if not (one_of flags b'a') && has_prefix i.name (codes ".")
    then later
    else if i.is_dir && not (one_of flags b'l')
    then name ++ b'/' ∷ b'\n' ∷ later
    else name ++ b'\n' ∷ later

abbrev ls_heading : Bool → Bytes → Bytes
ls_heading several a = if several then a ++ codes ":\n" else []

abbrev ls_read : Stringer → Bytes → Bool → Bytes → Bytes → Result (List Info) → Done
unfolding ls_entries
ls_read show flags several a path (err e) = fail (codes "ls") e
ls_read show flags several a path (ok is) =
    prints (ls_heading several a ++ ls_entries show flags path is)

abbrev ls_found : FileReads → Stringer → Bytes → Bool → Bytes → Bytes → Result Info → Done
unfolding ls_entries
ls_found fs show flags several a path (err e) = fail (codes "ls") e
ls_found fs show flags several a path (ok i) =
    if i.is_dir
    then ls_read show flags several a path (fs.read_dir path)
    else prints (show path i ++ b'\n' ∷ [])

unfoldable pub ls_args : FileReads → Stringer → Bytes → Bytes → Bool → List Bytes → Done
unfolding also ls_entries resolve_arg
ls_args fs show dir flags several [] = prints []
ls_args fs show dir flags several (a ∷ rest) =
    let path = resolve_arg dir a in
    also (ls_found fs show flags several a path (fs.stat path))
      (ls_args fs show dir flags several rest)

abbrev or_dot : List Bytes → List Bytes
or_dot [] = codes "." ∷ []
or_dot (a ∷ rest) = a ∷ rest

-- `runLs`; `show` is the stringer for `-l` and `-h`
unfoldable pub run_ls : FileReads → (Bool → Bool → Stringer) → Bytes → List Bytes → Done
unfolding ls_args parse_flags
run_ls fs show dir args =
    let f = parse_flags args in
    let rest = or_dot f.1 in
    ls_args fs (show (one_of f.0 b'l') (one_of f.0 b'h')) dir f.0 (ltb 1 (length rest)) rest

-- what `tree` has printed, and its error; none where its rounds have run out
abbrev pub Tree : Type 0
Tree = Option (Bytes × Option Fault)

abbrev tree_next : Bytes → Tree → Tree → Tree
tree_next l none later = none
tree_next l (some (out, some e)) later = some (l ++ out, some e)
tree_next l (some (out, none)) none = none
tree_next l (some (out, none)) (some (more, e)) = some (l ++ (out ++ more), e)

abbrev tree_child : Bool → Tree → Tree
tree_child is_dir inside = if is_dir then inside else some ([], none)

abbrev connector : List Info → Bytes
connector [] = encode (codes "└── ")
connector (i ∷ is) = encode (codes "├── ")

abbrev child_prefix : List Info → Bytes
child_prefix [] = codes "    "
child_prefix (i ∷ is) = encode (codes "│   ")

unfoldable pub tree_entries : (Bytes → Bytes → Tree) → Bytes → Bytes → List Info → Tree
unfolding encode join_path
tree_entries walk dir prefix [] = some ([], none)
tree_entries walk dir prefix (i ∷ is) =
    tree_next (prefix ++ (connector is ++ (i.name ++ b'\n' ∷ [])))
      (tree_child i.is_dir (walk (join_path dir i.name) (prefix ++ child_prefix is)))
      (tree_entries walk dir prefix is)

abbrev tree_read : (Bytes → Bytes → Tree) → Bytes → Bytes → Result (List Info) → Tree
unfolding tree_entries
tree_read walk dir prefix (err e) = some ([], some e)
tree_read walk dir prefix (ok is) = tree_entries walk dir prefix is

-- `walk` of `runTree`; the number bounds how deep it goes
unfoldable pub tree_walk : FileReads → ℕ → Bytes → Bytes → Tree
unfolding tree_entries
tree_walk fs zero dir prefix = none
tree_walk fs (suc depth) dir prefix = tree_read (tree_walk fs depth) dir prefix (fs.read_dir dir)

abbrev tree_done : Bytes → Tree → Option Done
tree_done root none = none
tree_done root (some (out, none)) = some (prints (root ++ b'\n' ∷ out))
tree_done root (some (out, some e)) = some (record {
  code = 1;
  out = root ++ b'\n' ∷ out;
  errors = Complaint.failed (codes "tree") e ∷ [];
})

abbrev root_of : List Bytes → Bytes
root_of [] = codes "."
root_of (a ∷ rest) = a

-- `runTree`
unfoldable pub run_tree : FileReads → ℕ → Bytes → List Bytes → Option Done
unfolding parse_flags resolve_arg tree_walk
run_tree fs depth dir args =
    let root = root_of (parse_flags args).1 in
    tree_done root (tree_walk fs depth (resolve_arg dir root) [])

-- what `stat` prints of a file; `describe` formats its mode and its time
abbrev pub stat_found : (Info → Bytes) → Bytes → Result Info → Done
unfolding itoa
stat_found describe a (err e) = fail (codes "stat") e
stat_found describe a (ok i) = prints (
    codes "  File: "
    ++ (a
        ++ (codes "\n  Size: "
            ++ (itoa i.size
                ++ b'\t'
                  ∷ ((if i.is_dir then codes "directory" else codes "regular file")
                      ++ describe i)))))

unfoldable pub stat_files : FileReads → (Info → Bytes) → Bytes → List Bytes → Done
unfolding also itoa resolve_arg
stat_files fs describe dir [] = prints []
stat_files fs describe dir (a ∷ rest) =
    also (stat_found describe a (fs.stat (resolve_arg dir a))) (stat_files fs describe dir rest)

abbrev pub stat_args : FileReads → (Info → Bytes) → Bytes → List Bytes → Done
unfolding stat_files
stat_args fs describe dir [] = refuse 1 (codes "stat: missing operand")
stat_args fs describe dir (a ∷ rest) = stat_files fs describe dir (a ∷ rest)

-- `runStat`
unfoldable pub run_stat : FileReads → (Info → Bytes) → Bytes → List Bytes → Done
unfolding parse_flags stat_files
run_stat fs describe dir args = stat_args fs describe dir (parse_flags args).1
