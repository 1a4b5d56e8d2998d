-- ===== src/Ssh/KnownHosts.antt =====
-- shell/ssh/knownhosts.go: the entries of a known_hosts file, and the check of a host's key.
pub mod Safety
use websh.Base.{
  split_lines, ℕ, ◌+◌, Bool, true, false, not, ◌&&◌, Option, none, some, List, [], ◌∷◌, ◌++◌, ◌==◌,
  if◌then◌else◌, Bytes, codes, drop, equal, ends_in, has_prefix,
}
use websh.Base.Result.{Fault, plain, with_text, Result, ok, err}
use websh.Ssh.Library.{Key, KeyLine, Library}
use websh.Ssh.Patterns.{hosts_match}
use websh.Ssh.Tty.{Tty, yes_no}

-- `hostEntry`
pub record Entry : Type 0 where
  pub line : ℕ
  pub revoked : Bool
  pub hosts : List Bytes
  pub key : Key

-- What reading the file gives.
pub data FileRead : Type 0 where
  missing : FileRead
  unreadable : Fault → FileRead
  contents : Bytes → FileRead

-- a line of the file with its number
unfoldable pub entry_of : Library → ℕ → Bytes → List Entry
unfolding equal
entry_of l i [] = []
entry_of l i (c ∷ line) = if c == b'#' then [] else elim (l.parse_line (c ∷ line)) [
  | none ↦ []
  | some k ↦
      if equal k.marker (codes "cert-authority")
      then []
      else record {
        line = i;
        revoked = equal k.marker (codes "revoked");
        hosts = k.hosts;
        key = k.key;
      }
        ∷ []
]

unfoldable pub entries_of : Library → ℕ → List Bytes → List Entry
unfolding entry_of
entries_of l i [] = []
entries_of l i (raw ∷ lines) = entry_of l i (l.trim_space raw) ++ entries_of l (i + 1) lines

-- `loadKnownHosts(fs, file)`
unfoldable pub load_known_hosts : Library → FileRead → Result (List Entry)
unfolding entries_of split_lines
load_known_hosts l missing = ok []
load_known_hosts l (unreadable e) = err e
load_known_hosts l (contents s) = let r = split_lines s in ok (entries_of l 1 (r.0 ∷ r.1))

-- `kh.lookup(host)`
unfoldable pub lookup : Library → List Entry → Bytes → List Entry
unfolding hosts_match
lookup l [] host = []
lookup l (e ∷ es) host =
    let rest = lookup l es host in if hosts_match l e.hosts host then e ∷ rest else rest

unfoldable pub contains : Bytes → List Bytes → Bool
unfolding equal
contains a [] = false
contains a (b ∷ bs) = let rest = contains a bs in if equal a b then true else rest

-- the closure `add` of `algorithms`
unfoldable pub add_algorithm : List Bytes → Bytes → List Bytes
unfolding contains
add_algorithm algos a = if contains a algos then algos else algos ++ a ∷ []

unfoldable pub add_kind : List Bytes → Bytes → List Bytes
unfolding add_algorithm equal
add_kind algos kind =
    if equal kind (codes "ssh-rsa")
    then add_algorithm
        (add_algorithm (add_algorithm algos (codes "rsa-sha2-512")) (codes "rsa-sha2-256"))
        (codes "ssh-rsa")
    else add_algorithm algos kind

unfoldable pub algorithms_of : List Bytes → List Entry → List Bytes
unfolding add_kind
algorithms_of algos [] = algos
algorithms_of algos (e ∷ es) =
    algorithms_of (if e.revoked then algos else add_kind algos e.key.kind) es

-- `kh.algorithms(host)`
unfoldable pub algorithms : Library → List Entry → Bytes → List Bytes
unfolding algorithms_of lookup
algorithms l entries host = algorithms_of [] (lookup l entries host)

-- The file of `kh`: what reading it gives, whether its directory can be made, and what a write of
-- it leaves and returns.
pub record Disk : Type 0 where
  pub file : FileRead
  pub make_dir : Result (Unit {0})
  pub write : Bytes → FileRead × Result (Unit {0})

abbrev file_text : FileRead → Result Bytes
file_text missing = ok []
file_text (unreadable e) = err e
file_text (contents s) = ok s

-- the text with a newline at its end, unless it is empty
unfoldable pub ended : Bytes → Bytes
unfolding ends_in
ended [] = []
ended (c ∷ s) = if ends_in b'\n' (c ∷ s) then c ∷ s else (c ∷ s) ++ b'\n' ∷ []

abbrev append_line : Library → Disk → Bytes → Key → Result Bytes → Disk × Result (Unit {0})
append_line l d host key (err e) = (d, err e)
append_line l d host key (ok text) =
    let s = ended text ++ (l.line_of host key ++ b'\n' ∷ []) in
    let w = d.write s in (record d { file = w.0 }, w.1)

-- `kh.add(host, key)`
unfoldable pub add_host : Library → Disk → Bytes → Key → Disk × Result (Unit {0})
unfolding ended
add_host l d host key = elim d.make_dir [
  | err e ↦ (d, err e)
  | ok _ ↦ append_line l d host key (file_text d.file)
]

-- `keyName(k)`
unfoldable pub key_name : Library → Key → Bytes
unfolding has_prefix
key_name l k =
    let t = if has_prefix k.kind (codes "ssh-") then drop 4 k.kind else k.kind in
    if has_prefix t (codes "ecdsa") then codes "ECDSA" else l.to_upper t

-- What `hostKeyCheck` prints, by what stands in its texts: the key's name, the host, the lines of
-- the entries.
pub data Notice : Type 0 where
  revoked_key : Bytes → Bytes → ℕ → Notice
  changed_key : Bytes → Key → List (Bytes × ℕ) → Bytes → Notice
  unknown_host : Bytes → Bytes → Key → Notice
  not_added : Fault → Notice
  added : Bytes → Bytes → Notice

-- `knownHosts` with the terminal, and what was printed to it besides the question.
pub record Checker : Type 0 where
  pub entries : List Entry
  pub disk : Disk
  pub tty : Tty
  pub notices : List Notice

abbrev same_key : Entry → Key → Bool
same_key e key = equal e.key.blob key.blob

-- the first loop of `hostKeyCheck`: the line of a revoked entry with this key
unfoldable pub find_revoked : Key → List Entry → Option ℕ
unfolding equal
find_revoked key [] = none
find_revoked key (e ∷ es) =
    let rest = find_revoked key es in if e.revoked && same_key e key then some e.line else rest

abbrev offending : Entry → Option (List Entry) → Option (List Entry)
offending e none = none
offending e (some o) = some (e ∷ o)

-- the second loop: whether an entry has this key, or else the offending entries
unfoldable pub find_known : Key → List Entry → Option (List Entry)
unfolding equal
find_known key [] = some []
find_known key (e ∷ es) =
    let rest = find_known key es in
    if e.revoked then rest else if same_key e key then none else offending e rest

unfoldable pub where_of : Library → List Entry → List (Bytes × ℕ)
unfolding key_name
where_of l [] = []
where_of l (e ∷ es) = (key_name l e.key, e.line) ∷ where_of l es

abbrev pub notify : Notice → Checker → Checker
notify n c = record c { notices = c.notices ++ n ∷ [] }

abbrev added_notice : Library → Bytes → Key → Result (Unit {0}) → Notice
added_notice l host key (err e) = not_added e
added_notice l host key (ok _) = added host (key_name l key)

-- the answer is yes
unfoldable pub accept_host : Library → Bytes → Key → Checker → Checker
unfolding add_host key_name
accept_host l host key c =
    let r = add_host l c.disk host key in
    let c' = notify (added_notice l host key r.1) (record c { disk = r.0 }) in
    record c' {
      entries =
          c.entries ++ record { line = 0; revoked = false; hosts = host ∷ []; key = key } ∷ [];
    }

abbrev question : Bytes
question = codes "Are you sure you want to continue connecting (yes/no)? "

unfoldable pub answered :
    Library → Bytes → Key → Checker → Result Bool × Tty → Checker × Result (Unit {0})
unfolding accept_host
answered l host key c (err e, tty) = (record c { tty = tty }, err e)
answered l host key c (ok false, tty) =
    (record c { tty = tty }, err (plain "host key verification failed"))
answered l host key c (ok true, tty) = (accept_host l host key (record c { tty = tty }), ok tt)

-- an unknown host, with fuel for the questions
unfoldable pub ask :
    ℕ → Library → Bytes → Bytes → Key → Checker → Option (Checker × Result (Unit {0}))
unfolding answered key_name yes_no
ask fuel l display host key c = elim (yes_no fuel l question c.tty) [
  | none ↦ none
  | some r ↦ some (answered l host key (notify (unknown_host display (key_name l key) key) c) r)
]

-- behind the first loop
unfoldable pub check_known :
    ℕ
    → Library
    → Bytes
    → Bytes
    → Key
    → Checker
    → Option (List Entry)
    → Option (Checker × Result (Unit {0}))
unfolding ask key_name where_of
check_known fuel l display host key c none = some (c, ok tt)
check_known fuel l display host key c (some []) = ask fuel l display host key c
check_known fuel l display host key c (some (e ∷ es)) = some (
  notify (changed_key (key_name l key) key (where_of l (e ∷ es)) display) c,
  err (plain "host key verification failed"),
)

-- the callback that `kh.hostKeyCheck(t, display)` returns; `none` means that the fuel ran out.
unfoldable pub host_key_check :
    ℕ → Library → Bytes → Bytes → Key → Checker → Option (Checker × Result (Unit {0}))
unfolding check_known find_known find_revoked key_name lookup
host_key_check fuel l display hostport key c =
    let host = l.normalize hostport in
    let entries = lookup l c.entries host in
    elim (find_revoked key entries) [
      | some line ↦ some (
        notify (revoked_key (key_name l key) host line) c,
        err (with_text "host key for %s is revoked" host),
      )
      | none ↦ check_known fuel l display host key c (find_known key entries)
    ]
