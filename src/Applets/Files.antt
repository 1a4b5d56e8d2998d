-- ===== src/Applets/Files.antt =====
-- shell/applets.go and applets2.go: mkdir, rmdir, rm, cp, mv, touch and chmod, which change the
-- files, over the file system that they are given.
pub mod Find
pub mod Kept
pub mod Listing
pub mod Trees
use websh.Base.{
  ℕ, zero, suc, ◌+◌, ◌-◌, ◌*◌, ◌^◌, Bool, true, false, not, ◌&&◌, Option, none, some, List, [], ◌∷◌,
  ◌++◌, if◌then◌else◌, Bytes, codes, one_of, ltb, within,
}
use websh.Base.Result.{Fault, Result, ok, err}
use websh.Base.Paths.{base_path, join_path}
use websh.Applets.{Done, prints, fail, refuse, parse_flags, resolve_arg}

-- What `Stat` and `ReadDir` say of a file.
pub record Info : Type 0 where
  pub name : Bytes
  pub is_dir : Bool
  pub size : ℕ
  -- the permissions
  pub mode : ℕ

-- The file system: how it stands, what can be read of it, and the calls that change it, each with
-- its error.
pub record Fs : Type 1 where
  pub State : Type 0
  pub stat : State → Bytes → Result Info
  -- `Open`, and `Stat` of what it opens
  pub open_stat : State → Bytes → Result Info
  pub read_dir : State → Bytes → Result (List Info)
  pub read_file : State → Bytes → Result Bytes
  pub mkdir : State → Bytes → State × Option Fault
  pub mkdir_all : State → Bytes → State × Option Fault
  pub remove : State → Bytes → State × Option Fault
  pub remove_all : State → Bytes → State × Option Fault
  pub rename : State → Bytes → Bytes → State × Option Fault
  pub chmod : State → Bytes → ℕ → State × Option Fault
  pub create : State → Bytes → State × Option Fault
  pub close : State → Bytes → State × Option Fault
  pub chtimes : State → Bytes → State × Option Fault
  -- `OpenFile` to write, with the permissions given
  pub truncate : State → Bytes → ℕ → State × Option Fault
  -- `io.Copy` from one file to another
  pub copy_data : State → Bytes → Bytes → State × Option Fault

-- the applet went through, or has stopped with what it says
pub data Progress : Type 0 where
  goes_on : Progress
  stops : Done → Progress

abbrev done_of : Progress → Done
done_of goes_on = prints []
done_of (stops d) = d

module _ (fs : Fs) where
  -- the next of a chain of steps, if the last has not stopped
  abbrev pub step : fs.State × Progress → (fs.State → fs.State × Progress) → fs.State × Progress
  step (s, stops d) next = (s, stops d)
  step (s, goes_on) next = next s

  -- the steps for the arguments, one after the other
  unfoldable pub each_arg :
      (fs.State → Bytes → fs.State × Progress) → fs.State → List Bytes → fs.State × Progress
  each_arg f s [] = (s, goes_on)
  each_arg f s (a ∷ rest) = step (f s a) (λ t. each_arg f t rest)

  abbrev pub finished : fs.State × Progress → fs.State × Done
  finished (s, o) = (s, done_of o)

  -- a call whose error is the applet's
  abbrev pub checked : Bytes → fs.State × Option Fault → fs.State × Progress
  checked name (s, none) = (s, goes_on)
  checked name (s, some e) = (s, stops (fail name e))

  -- an error that `-f` passes over
  abbrev pub forced : Bool → Bytes → fs.State × Option Fault → fs.State × Progress
  forced true name r = (r.0, goes_on)
  forced false name r = checked name r

  unfoldable pub mkdir_arg : Bytes → Bytes → fs.State → Bytes → fs.State × Progress
  unfolding resolve_arg
  mkdir_arg dir flags s a =
      let path = resolve_arg dir a in
      checked (codes "mkdir") (if one_of flags b'p' then fs.mkdir_all s path else fs.mkdir s path)

  abbrev pub mkdir_args : Bytes → fs.State → Bytes → List Bytes → fs.State × Done
  unfolding each_arg mkdir_arg
  mkdir_args dir s flags [] = (s, refuse 1 (codes "mkdir: missing operand"))
  mkdir_args dir s flags (a ∷ rest) = finished (each_arg (mkdir_arg dir flags) s (a ∷ rest))

  -- `runMkdir`
  unfoldable pub run_mkdir : Bytes → fs.State → List Bytes → fs.State × Done
  unfolding each_arg mkdir_arg parse_flags
  run_mkdir dir s args = let f = parse_flags args in mkdir_args dir s f.0 f.1

  abbrev rmdir_found : fs.State → Bytes → Bytes → Result (List Info) → fs.State × Progress
  rmdir_found s a path (err e) = (s, stops (fail (codes "rmdir") e))
  rmdir_found s a path (ok []) = checked (codes "rmdir") (fs.remove s path)
  rmdir_found s a path (ok (i ∷ is)) =
      (s, stops (refuse 1 (codes "rmdir: " ++ (a ++ codes ": directory not empty"))))

  unfoldable pub rmdir_arg : Bytes → fs.State → Bytes → fs.State × Progress
  unfolding resolve_arg
  rmdir_arg dir s a = let path = resolve_arg dir a in rmdir_found s a path (fs.read_dir s path)

  -- `runRmdir`
  unfoldable pub run_rmdir : Bytes → fs.State → List Bytes → fs.State × Done
  unfolding each_arg parse_flags rmdir_arg
  run_rmdir dir s args = finished (each_arg (rmdir_arg dir) s (parse_flags args).1)

  abbrev pub rm_found : Bytes → fs.State → Bytes → Bytes → Result Info → fs.State × Progress
  rm_found flags s a path (err e) =
      (s, (if one_of flags b'f' then goes_on else stops (fail (codes "rm") e)))
  rm_found flags s a path (ok i) =
      if i.is_dir && not (one_of flags b'r')
      then (s, stops (refuse 1 (codes "rm: " ++ (a ++ codes ": is a directory"))))
      else forced (one_of flags b'f') (codes "rm") (fs.remove_all s path)

  unfoldable pub rm_arg : Bytes → Bytes → fs.State → Bytes → fs.State × Progress
  unfolding resolve_arg
  rm_arg dir flags s a = let path = resolve_arg dir a in rm_found flags s a path (fs.stat s path)

  abbrev pub rm_args : Bytes → fs.State → Bytes → List Bytes → fs.State × Done
  unfolding each_arg rm_arg
  rm_args dir s flags [] = (s, refuse 1 (codes "rm: missing operand"))
  rm_args dir s flags (a ∷ rest) = finished (each_arg (rm_arg dir flags) s (a ∷ rest))

  -- `runRm`
  unfoldable pub run_rm : Bytes → fs.State → List Bytes → fs.State × Done
  unfolding each_arg parse_flags rm_arg
  run_rm dir s args = let f = parse_flags args in rm_args dir s f.0 f.1

  -- `di, err := Stat(dst); err == nil && di.IsDir()`
  abbrev is_directory : Result Info → Bool
  is_directory (err e) = false
  is_directory (ok i) = i.is_dir

  -- the target of a copy or a move into a directory
  unfoldable pub into : fs.State → Bytes → Bytes → Bytes
  unfolding base_path join_path
  into s src dst = if is_directory (fs.stat s dst) then join_path dst (base_path src) else dst

  abbrev pub mv_arg : Bytes → Bytes → fs.State → Bytes → fs.State × Progress
  unfolding into resolve_arg
  mv_arg dir dst s a =
      let src = resolve_arg dir a in checked (codes "mv") (fs.rename s src (into s src dst))

  -- an argument list from its end: the last, and the others
  abbrev split_last : Bytes → List Bytes → List Bytes × Bytes
  split_last a [] = ([], a)
  split_last a (b ∷ rest) = let r = split_last b rest in (a ∷ r.0, r.1)

  abbrev pub mv_args : Bytes → fs.State → List Bytes → fs.State × Done
  unfolding each_arg into resolve_arg
  mv_args dir s (a ∷ b ∷ rest) =
      let r = split_last a (b ∷ rest) in
      finished (each_arg (mv_arg dir (resolve_arg dir r.1)) s r.0)
  mv_args dir s _ = (s, refuse 1 (codes "mv: missing operand"))

  -- `runMv`
  unfoldable pub run_mv : Bytes → fs.State → List Bytes → fs.State × Done
  unfolding each_arg into parse_flags resolve_arg
  run_mv dir s args = mv_args dir s (parse_flags args).1

  -- the next call on the files, if the last has no error
  abbrev and_then :
      fs.State × Option Fault → (fs.State → fs.State × Option Fault) → fs.State × Option Fault
  and_then (s, some e) next = (s, some e)
  and_then (s, none) next = next s

  abbrev touch_found : fs.State → Bytes → Result Info → fs.State × Option Fault
  touch_found s path (err e) = and_then (fs.create s path) (λ t. fs.close t path)
  touch_found s path (ok i) = fs.chtimes s path

  unfoldable pub touch_arg : Bytes → fs.State → Bytes → fs.State × Progress
  unfolding resolve_arg
  touch_arg dir s a =
      let path = resolve_arg dir a in checked (codes "touch") (touch_found s path (fs.stat s path))

  -- `runTouch`
  unfoldable pub run_touch : Bytes → fs.State → List Bytes → fs.State × Done
  unfolding each_arg parse_flags touch_arg
  run_touch dir s args = finished (each_arg (touch_arg dir) s (parse_flags args).1)

  -- behind an error of `io.Copy` the file is closed, and the error is the one of the copy
  abbrev copied : Bytes → fs.State × Option Fault → fs.State × Option Fault
  copied dst (s, some e) = ((fs.close s dst).0, some e)
  copied dst (s, none) = fs.close s dst

  abbrev copy_stat : fs.State → Bytes → Bytes → Result Info → fs.State × Option Fault
  copy_stat s src dst (err e) = (s, some e)
  copy_stat s src dst (ok i) =
      and_then (fs.truncate s dst i.mode) (λ t. copied dst (fs.copy_data t src dst))

  -- `copyFile`
  unfoldable pub copy_file : fs.State → Bytes → Bytes → fs.State × Option Fault
  copy_file s src dst = copy_stat s src dst (fs.open_stat s src)

-- `strconv.ParseUint(s, 8, 32)`
unfoldable pub octal_digits : ℕ → Bytes → Option ℕ
octal_digits v [] = if ltb v (2 ^ 32) then some v else none
octal_digits v (c ∷ s) =
    let later = octal_digits (v * 8 + (c - b'0')) s in if within b'0' b'7' c then later else none

unfoldable pub parse_mode : Bytes → Option ℕ
unfolding octal_digits
parse_mode [] = none
parse_mode (c ∷ s) = octal_digits 0 (c ∷ s)

module _ (fs : Fs) where
  unfoldable pub chmod_arg : Bytes → ℕ → fs.State → Bytes → fs.State × Progress
  unfolding resolve_arg
  chmod_arg dir mode s a = checked fs (codes "chmod") (fs.chmod s (resolve_arg dir a) mode)

  abbrev pub chmod_mode : Fault → Bytes → fs.State → Option ℕ → List Bytes → fs.State × Done
  unfolding chmod_arg each_arg
  chmod_mode bad dir s none files = (s, fail (codes "chmod") bad)
  chmod_mode bad dir s (some mode) files = finished fs (each_arg fs (chmod_arg dir mode) s files)

  abbrev pub chmod_args : (Bytes → Fault) → Bytes → fs.State → List Bytes → fs.State × Done
  unfolding chmod_arg each_arg parse_mode
  chmod_args bad dir s (m ∷ a ∷ rest) = chmod_mode (bad m) dir s (parse_mode m) (a ∷ rest)
  chmod_args bad dir s _ = (s, refuse 1 (codes "usage: chmod octal-mode file..."))

  -- `runChmod`; `bad` is the error of a mode that is no number, by its text
  unfoldable pub run_chmod : (Bytes → Fault) → Bytes → fs.State → List Bytes → fs.State × Done
  unfolding chmod_arg each_arg parse_flags parse_mode
  run_chmod bad dir s args = chmod_args bad dir s (parse_flags args).1
