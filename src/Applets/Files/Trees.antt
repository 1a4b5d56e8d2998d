-- ===== src/Applets/Files/Trees.antt =====
-- shell/applets.go: cp, which copies directories with what they hold.
use websh.Base.{
  ℕ, zero, suc, Bool, true, Option, none, some, List, [], ◌∷◌, if◌then◌else◌, Bytes, codes, one_of,
}
use websh.Base.Result.{Fault, Result, ok, err}
use websh.Base.Paths.{join_path}
use websh.Applets.{Done, prints, fail, refuse, parse_flags, resolve_arg}
use websh.Applets.Files.{Info, Fs, copy_file, into}

module _ (fs : Fs) where
  -- how a copy has gone, which is none where its rounds have run out
  abbrev pub Copy : Type 0
  Copy = Option (fs.State × Option Fault)

  -- the next call, if the last has no error
  abbrev pub copy_next : Copy → (fs.State → Copy) → Copy
  copy_next none next = none
  copy_next (some (s, some e)) next = some (s, some e)
  copy_next (some (s, none)) next = next s

  -- the entries of a directory, copied one after the other
  unfoldable pub copy_entries :
      (fs.State → Bytes → Bytes → Copy) → Bytes → Bytes → fs.State → List Info → Copy
  unfolding join_path
  copy_entries copy src dst s [] = some (s, none)
  copy_entries copy src dst s (i ∷ is) =
      copy_next (copy s (join_path src i.name) (join_path dst i.name))
        (λ t. copy_entries copy src dst t is)

  abbrev pub copy_read :
      (fs.State → Bytes → Bytes → Copy) → Bytes → Bytes → fs.State → Result (List Info) → Copy
  unfolding copy_entries
  copy_read copy src dst s (err e) = some (s, some e)
  copy_read copy src dst s (ok is) = copy_entries copy src dst s is

  abbrev pub copy_found :
      (fs.State → Bytes → Bytes → Copy) → fs.State → Bytes → Bytes → Bool → Result Info → Copy
  unfolding copy_entries copy_file into
  copy_found copy s src dst recursive (err e) = some (s, some e)
  copy_found copy s src dst recursive (ok i) =
      if i.is_dir
      then (if recursive
          then copy_next (some (fs.mkdir_all s dst))
              (λ t. copy_read copy src dst t (fs.read_dir t src))
          else some (s, some (Fault.with_text "%s is a directory (use -r)" src)))
      else some (copy_file fs s src (into fs s src dst))

  -- `copyAny`; the number bounds how deep it goes
  unfoldable pub copy_any : ℕ → fs.State → Bytes → Bytes → Bool → Copy
  unfolding copy_entries copy_file into
  copy_any zero s src dst recursive = none
  copy_any (suc depth) s src dst recursive =
      copy_found (λ t a b. copy_any depth t a b true) s src dst recursive (fs.stat s src)

  -- the files of `cp`, and the last of its arguments
  unfoldable pub copy_args : ℕ → Bytes → Bool → fs.State → Bytes → List Bytes → Copy
  unfolding copy_any resolve_arg
  copy_args depth dir recursive s dst [] = some (s, none)
  copy_args depth dir recursive s dst (a ∷ rest) =
      copy_next (copy_any depth s (resolve_arg dir a) dst recursive)
        (λ t. copy_args depth dir recursive t dst rest)

  abbrev pub cp_done : Copy → Option (fs.State × Done)
  cp_done none = none
  cp_done (some (s, none)) = some (s, prints [])
  cp_done (some (s, some e)) = some (s, fail (codes "cp") e)

  -- an argument list from its end: the last, and the others
  abbrev pub last_arg : Bytes → List Bytes → List Bytes × Bytes
  last_arg a [] = ([], a)
  last_arg a (b ∷ rest) = let r = last_arg b rest in (a ∷ r.0, r.1)

  abbrev pub cp_args : ℕ → Bytes → fs.State → Bytes → List Bytes → Option (fs.State × Done)
  unfolding copy_args resolve_arg
  cp_args depth dir s flags (a ∷ b ∷ rest) =
      let r = last_arg a (b ∷ rest) in
      cp_done (copy_args depth dir (one_of flags b'r') s (resolve_arg dir r.1) r.0)
  cp_args depth dir s flags _ = some (s, refuse 1 (codes "cp: missing operand"))

  -- `runCp`
  unfoldable pub run_cp : ℕ → Bytes → fs.State → List Bytes → Option (fs.State × Done)
  unfolding copy_args parse_flags resolve_arg
  run_cp depth dir s args = let f = parse_flags args in cp_args depth dir s f.0 f.1
