-- ===== src/Sed/Applet/Files.antt =====
-- shell/sedapplet.go: `runSed`, the script over the files of the command line.
use websh.Base.{
  ℕ, Bool, true, false, not, ◌&&◌, Option, none, some, List, [], ◌∷◌, ◌++◌, ◌==◌, if◌then◌else◌,
  Bytes, codes, equal, index_byte,
}
use websh.Base.Result.{Fault, Result, ok, err}
use websh.Base.Int.{ℤ, pos, negsuc}
use websh.Base.Paths.{join_with, is_abs, join_path, base_path, dir_path}
use websh.Applets.{resolve_arg}
use websh.Sed.Host.{Host}
use websh.Sed.State.{Program}
use websh.Sed.Run.{Ended, done, quit, failed, write_failed, run, compile}
use websh.Sed.Applet.{SedArgs, Parsed, help, bad, parsed, parse_sed_args}

-- The files, as `runSed` uses them, by their paths: whether a path is a directory, where
-- `Stat` has no error, what a read gives, and a write.
pub record SedFs : Type 1 where
  pub State : Type 0
  pub stat : State → Bytes → Option Bool
  pub read_file : State → Bytes → Result Bytes
  pub write_file : State → Bytes → Bytes → State × Option Fault

-- What is said on the standard error.
pub data SedNote : Type 0 where
  usage : SedNote
  error_note : Fault → SedNote
  cannot_read : Bytes → Fault → SedNote
  not_regular : Bytes → SedNote
  write_error : SedNote

-- `strings.ReplaceAll(suffix, "*", name)`
unfoldable pub replace_stars : Bytes → Bytes → Bytes
replace_stars name [] = []
replace_stars name (c ∷ s) =
    let later = replace_stars name s in if c == b'*' then name ++ later else c ∷ later

abbrev is_found : Option ℕ → Bool
is_found none = false
is_found (some i) = true

-- where `sedBackup` puts the copy
unfoldable pub backup_path : Bytes → Bytes → Bytes
unfolding base_path dir_path index_byte is_abs join_path replace_stars
backup_path path suffix =
    let dest = replace_stars (base_path path) suffix in
    if not (is_found (index_byte b'*' suffix))
    then path ++ suffix
    else if is_found (index_byte b'/' dest) && is_abs dest
    then dest
    else join_path (dir_path path) dest

module _ (fs : SedFs) (dir : Bytes) where
  -- the files and the program as they are left, what was printed and said, and the exit code
  pub record SedDone : Type 0 where
    pub files : fs.State
    pub prog : Program
    pub out : Bytes
    pub notes : List SedNote
    pub code : ℤ
    -- whether the loop over the files has ended
    pub over : Bool

  -- the same with one more text printed and note said
  abbrev pub ends_with : SedDone → ℤ → List SedNote → SedDone
  ends_with d code notes = record d { notes = d.notes ++ notes; code = code; over = true }

  abbrev pub goes_on_with : SedDone → ℤ → List SedNote → SedDone
  goes_on_with d code notes = record d { notes = d.notes ++ notes; code = code }

  -- `finish`: a run that goes on, or its exit code
  abbrev pub finish_run : SedDone → Ended → SedDone
  finish_run d done = d
  finish_run d quit = record d { code = d.prog.code; over = true }
  finish_run d (failed e) = ends_with d (pos 4) (error_note e ∷ [])
  finish_run d write_failed = ends_with d (pos 4) (write_error ∷ [])

  -- a run of the program whose output goes to the standard output
  abbrev pub ran : SedDone → Option (Program × Bytes × Ended) → Option SedDone
  ran d none = none
  ran d (some (p, out, e)) = some (finish_run (record d { prog = p; out = d.out ++ out }) e)

  -- `open`: the input, or a file
  abbrev pub opened : fs.State → Bytes → Bytes → Result Bytes
  unfolding equal resolve_arg
  opened s stdin name =
      if equal name (codes "-") then ok stdin else fs.read_file s (resolve_arg dir name)

  abbrev pub separate_read : ℕ → ℕ → Host → Bytes → SedDone → Result Bytes → Option SedDone
  unfolding run
  separate_read fuel steps h name d (err e) =
      some (goes_on_with d (pos 2) (cannot_read name e ∷ []))
  separate_read fuel steps h name d (ok s) = ran d (run fuel steps h d.prog (s ∷ []))

  -- the next file, unless the loop has ended
  abbrev pub and_next : Option SedDone → (SedDone → Option SedDone) → Option SedDone
  and_next none next = none
  and_next (some d) next = if d.over then some d else next d

  -- the files one by one; `stdin` is what is left of the input
  unfoldable pub separate_files : ℕ → ℕ → Host → Bytes → List Bytes → SedDone → Option SedDone
  unfolding equal resolve_arg run
  separate_files fuel steps h stdin [] d = some d
  separate_files fuel steps h stdin (name ∷ names) d =
      let left = if equal name (codes "-") then [] else stdin in
      and_next (separate_read fuel steps h name d (opened d.files stdin name))
        (separate_files fuel steps h left names)

  abbrev pub joined_read :
      Bytes → Result Bytes → List Bytes × List SedNote → List Bytes × List SedNote
  joined_read name (err e) later = (later.0, cannot_read name e ∷ later.1)
  joined_read name (ok s) later = (s ∷ later.0, later.1)

  -- the files as one stream: what is read of them, and what is said
  unfoldable pub joined_files : fs.State → Bytes → List Bytes → List Bytes × List SedNote
  unfolding equal resolve_arg
  joined_files s stdin [] = ([], [])
  joined_files s stdin (name ∷ names) =
      let left = if equal name (codes "-") then [] else stdin in
      joined_read name (opened s stdin name) (joined_files s left names)

  abbrev pub run_joined : ℕ → ℕ → Host → SedDone → List Bytes × List SedNote → Option SedDone
  unfolding run
  run_joined fuel steps h d (rs, []) = ran d (run fuel steps h d.prog rs)
  run_joined fuel steps h d (rs, n ∷ ns) =
      ran (goes_on_with d (pos 2) (n ∷ ns)) (run fuel steps h d.prog rs)

  -- `afero.WriteFile` of an edited file, behind the backup
  abbrev pub written_back : SedDone → SedDone → fs.State × Option Fault → SedDone
  written_back before after (s, none) = record after { files = s }
  written_back before after (s, some e) =
      ends_with (record before { files = s; prog = after.prog }) (pos 4) (error_note e ∷ [])

  abbrev pub write_back : Bytes → Bytes → SedDone → SedDone → SedDone
  write_back path text before after =
      written_back before after (fs.write_file after.files path text)

  abbrev pub backed_up : Bytes → Bytes → SedDone → SedDone → fs.State × Option Fault → SedDone
  backed_up path text before after (s, some e) =
      ends_with (record before { files = s; prog = after.prog }) (pos 4) (error_note e ∷ [])
  backed_up path text before after (s, none) =
      write_back path text before (record after { files = s })

  -- `sedBackup` of what is read
  abbrev pub backup_read : Bytes → Bytes → Bytes → SedDone → SedDone → Result Bytes → SedDone
  unfolding backup_path
  backup_read path suffix text before after (err e) =
      ends_with (record before { prog = after.prog }) (pos 4) (error_note e ∷ [])
  backup_read path suffix text before after (ok s) =
      backed_up path text before after (fs.write_file after.files (backup_path path suffix) s)

  abbrev pub keep_or_write : Bytes → Bytes → Bytes → SedDone → SedDone → SedDone
  unfolding backup_path
  keep_or_write path [] text before after = write_back path text before after
  keep_or_write path (c ∷ suffix) text before after =
      backup_read path (c ∷ suffix) text before after (fs.read_file after.files path)

  -- one file behind its run; an exit code of 4 writes nothing, and a file that `Stat` does not know
  -- has no mode: there Go panics, and there is no result
  abbrev pub edited :
      Bytes → Bytes → Bool → SedDone → Option (Program × Bytes × Ended) → Option SedDone
  unfolding backup_path equal
  edited path suffix known d none = none
  edited path suffix known d (some (p, text, e)) =
      let after = finish_run (record d { prog = p }) e in
      if after.over && is_four after.code
      then some after
      else if known
      then some (keep_or_write path suffix text d after)
      else none
    where
      is_four : ℤ → Bool
      is_four (pos n) = n == 4
      is_four (negsuc n) = false

  abbrev pub edit_found :
      ℕ → ℕ → Host → Bytes → Bytes → Bytes → SedDone → Option Bool → Result Bytes → Option SedDone
  unfolding backup_path run
  edit_found fuel steps h suffix name path d (some true) r =
      some (goes_on_with d (pos 4) (not_regular name ∷ []))
  edit_found fuel steps h suffix name path d (some false) (err e) =
      some (goes_on_with d (pos 2) (cannot_read name e ∷ []))
  edit_found fuel steps h suffix name path d none (err e) =
      some (goes_on_with d (pos 2) (cannot_read name e ∷ []))
  edit_found fuel steps h suffix name path d (some false) (ok s) =
      edited path suffix true d (run fuel steps h d.prog (s ∷ []))
  edit_found fuel steps h suffix name path d none (ok s) =
      edited path suffix false d (run fuel steps h d.prog (s ∷ []))

  abbrev pub known_dir : Option Bool → Bool
  known_dir none = false
  known_dir (some b) = b

  -- the files edited in place; what the script reads and writes may change with the files
  unfoldable pub edit_files :
      ℕ → ℕ → (fs.State → Host) → Bytes → Bytes → List Bytes → SedDone → Option SedDone
  unfolding backup_path equal resolve_arg run
  edit_files fuel steps h suffix stdin [] d = some d
  edit_files fuel steps h suffix stdin (name ∷ names) d =
      let path = resolve_arg dir name in
      let left =
        if equal name (codes "-") && not (known_dir (fs.stat d.files path)) then [] else stdin in
      and_next
        (edit_found fuel steps (h d.files) suffix name path d (fs.stat d.files path)
          (opened d.files stdin name))
        (edit_files fuel steps h suffix left names)

  abbrev pub run_files :
      ℕ → ℕ → (fs.State → Host) → Bytes → SedArgs → List Bytes → SedDone → Option SedDone
  unfolding edit_files joined_files run separate_files
  run_files fuel steps h stdin a [] d = ran d (run fuel steps (h d.files) d.prog (stdin ∷ []))
  run_files fuel steps h stdin a (f ∷ names) d =
      if a.in_place
      then edit_files fuel steps h a.suffix stdin (f ∷ names) d
      else if a.separate
      then separate_files fuel steps (h d.files) stdin (f ∷ names) d
      else run_joined fuel steps (h d.files) d (joined_files d.files stdin (f ∷ names))

  abbrev pub empty_program : Program
  empty_program = record {
    quiet = true;
    cmds = [];
    hold = [];
    last_rx = none;
    writers = [];
    code = pos 0;
  }

  abbrev pub not_run : fs.State → SedNote → SedDone
  not_run s n = record {
    files = s;
    prog = empty_program;
    out = [];
    notes = n ∷ [];
    code = pos 1;
    over = true;
  }

  abbrev pub compiled :
      ℕ
      → ℕ
      → (fs.State → Host)
      → Bytes
      → SedArgs
      → fs.State
      → Option (Result Program)
      → Option SedDone
  unfolding edit_files joined_files run separate_files
  compiled fuel steps h stdin a s none = none
  compiled fuel steps h stdin a s (some (err e)) = some (not_run s (error_note e))
  compiled fuel steps h stdin a s (some (ok p)) =
      run_files fuel steps h stdin a a.operands
        (record { files = s; prog = p; out = []; notes = []; code = pos 0; over = false })

  abbrev pub with_args : ℕ → ℕ → (fs.State → Host) → Bytes → fs.State → Parsed → Option SedDone
  unfolding compile edit_files join_with joined_files run separate_files
  with_args fuel steps h stdin s help = some (not_run s usage)
  with_args fuel steps h stdin s (bad e) = some (not_run s (error_note e))
  with_args fuel steps h stdin s (parsed a) =
      compiled fuel steps h stdin a s
        (compile (h s) (join_with (codes "\n") a.scripts) a.quiet a.ere)

  -- `runSed`; the numbers bound the cycles and the commands of each run, and `h` has the callbacks that it passes to `Compile`, and what the script calls
  unfoldable pub run_sed :
      ℕ → ℕ → (fs.State → Host) → Bytes → fs.State → List Bytes → Option SedDone
  unfolding compile edit_files join_with joined_files parse_sed_args resolve_arg run separate_files
  run_sed fuel steps h stdin s args =
      with_args fuel steps h stdin s
        (parse_sed_args (λ name. fs.read_file s (resolve_arg dir name)) args)
