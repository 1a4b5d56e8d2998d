-- ===== src/Complete.antt =====
-- shell/complete.go: `Shell.Complete`, the candidates for a word.
mod Prefixes
mod Witnesses
use websh.Base.{
  ℕ, Bool, true, false, not, ◌&&◌, ◌||◌, Option, none, some, List, [], ◌∷◌, ◌++◌, if◌then◌else◌,
  Bytes, codes, equal, has_prefix, index_byte, drop,
}
use websh.Base.Result.{Result, ok, err}
use websh.Base.Paths.{split_byte, is_abs, clean, join_path, split_path}
use websh.Applets.Lines.{less_text, sort_stable}

-- An entry of a directory: its name, whether it is a directory, and whether its file information
-- can be read and has a bit for execution.
pub record DirEntry : Type 0 where
  pub name : Bytes
  pub is_dir : Bool
  pub executable : Bool

-- What completion reads: the applets' names, whether the shell runs on the OS, its directory, the
-- values of HOME and PATH, the shell's directories, and those of the OS.
pub record Shell : Type 0 where
  pub applet_names : List Bytes
  pub native : Bool
  pub dir : Bytes
  pub home : Bytes
  pub path : Bytes
  pub read_dir : Bytes → Result (List DirEntry)
  pub os_read_dir : Bytes → Result (List DirEntry)

-- `Builtins`
abbrev pub builtins : List Bytes
builtins =
    codes "cd"
    ∷ codes "pwd"
    ∷ codes "echo"
    ∷ codes "printf"
    ∷ codes "read"
    ∷ codes "exit"
    ∷ codes "export"
    ∷ codes "unset"
    ∷ codes "source"
    ∷ codes "test"
    ∷ codes "true"
    ∷ codes "false"
    ∷ codes "set"
    ∷ codes "shift"
    ∷ codes "local"
    ∷ codes "declare"
    ∷ codes "eval"
    ∷ codes "alias"
    ∷ codes "unalias"
    ∷ codes "type"
    ∷ codes "return"
    ∷ codes "break"
    ∷ codes "continue"
    ∷ codes "pushd"
    ∷ codes "popd"
    ∷ codes "dirs"
    ∷ codes "let"
    ∷ codes "getopts"
    ∷ codes "wait"
    ∷ codes "jobs"
    ∷ codes "kill"
    ∷ codes "disown"
    ∷ codes "fg"
    ∷ codes "bg"
    ∷ codes "enable"
    ∷ codes "compgen"
    ∷ codes "history"
    ∷ codes "builtin"
    ∷ codes "umask"
    ∷ codes "times"
    ∷ codes "trap"
    ∷ codes "shopt"
    ∷ codes "mapfile"
    ∷ codes "readarray"
    ∷ []

-- `seen[n]`
unfoldable pub seen : List Bytes → Bytes → Bool
unfolding equal
seen [] n = false
seen (m ∷ names) n = equal m n || seen names n

-- `add`; the names are kept from the last to the first
unfoldable pub add_name : Bytes → List Bytes → Bytes → List Bytes
unfolding has_prefix seen
add_name word names n = if has_prefix n word && not (seen names n) then n ∷ names else names

unfoldable pub add_names : Bytes → List Bytes → List Bytes → List Bytes
unfolding add_name
add_names word names [] = names
add_names word names (n ∷ ns) = add_names word (add_name word names n) ns

-- `filepath.SplitList`
abbrev split_list : Bytes → List Bytes
unfolding split_byte
split_list [] = []
split_list (c ∷ s) = let parts = split_byte b':' (c ∷ s) in parts.0 ∷ parts.1

-- the programs of one directory, and of the others behind it
unfoldable pub programs_in : Bytes → List DirEntry → List Bytes
unfolding has_prefix
programs_in prefix [] = []
programs_in prefix (e ∷ es) =
    let later = programs_in prefix es in
    if not (has_prefix e.name prefix) || e.is_dir
    then later
    else if e.executable
    then e.name ∷ later
    else later

abbrev programs_read : Bytes → Result (List DirEntry) → List Bytes
programs_read prefix (err f) = []
programs_read prefix (ok es) = programs_in prefix es

unfoldable pub programs_of : Shell → Bytes → List Bytes → List Bytes
unfolding programs_in
programs_of s prefix [] = []
programs_of s prefix (d ∷ ds) = programs_read prefix (s.os_read_dir d) ++ programs_of s prefix ds

-- `pathPrograms`
unfoldable pub path_programs : Shell → Bytes → List Bytes
unfolding programs_of split_byte
path_programs s prefix = programs_of s prefix (split_list s.path)

-- the names that complete a command
unfoldable pub command_names : Shell → Bytes → List Bytes
unfolding add_names path_programs
command_names s word =
    let own = add_names word (add_names word [] s.applet_names) builtins in
    if s.native then add_names word own (path_programs s word) else own

-- the candidates among the entries of a directory
unfoldable pub path_candidates : Bytes → Bytes → List DirEntry → List Bytes
unfolding has_prefix
path_candidates dir base [] = []
path_candidates dir base (e ∷ es) =
    let later = path_candidates dir base es in
    if has_prefix e.name base
    then (if e.is_dir then (dir ++ e.name) ++ codes "/" else dir ++ e.name) ∷ later
    else later

abbrev pub candidates_read : Bytes → Bytes → Result (List DirEntry) → List Bytes
candidates_read dir base (err f) = []
candidates_read dir base (ok es) = path_candidates dir base es

-- the directory that is searched for a word in `dir`
unfoldable pub search_dir : Shell → Bytes → Bytes
unfolding clean has_prefix is_abs join_path
search_dir s dir =
    let at_home =
      if has_prefix dir (codes "~/") && s.native then join_path s.home (drop 2 dir) else dir in
    clean (if is_abs at_home then at_home else join_path s.dir at_home)

unfoldable pub path_names : Shell → Bytes → List Bytes
unfolding path_candidates search_dir split_path
path_names s word =
    let p = split_path word in candidates_read p.0 p.1 (s.read_dir (search_dir s p.0))

abbrev pub no_slash : Option ℕ → Bool
no_slash none = true
no_slash (some i) = false

-- `Complete`
unfoldable pub complete : Shell → Bytes → Bool → List Bytes
unfolding command_names index_byte less_text path_names sort_stable
complete s word is_first =
    let found =
      if is_first && no_slash (index_byte b'/' word)
      then command_names s word
      else path_names s word in
    sort_stable less_text found
