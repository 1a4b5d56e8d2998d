-- ===== src/Ssh/Witnesses.antt =====
-- The theorems on shell/ssh at concrete inputs, and some runs.
use websh.Base.{
  ◌≡◌, ◌≢◌, ◌↔◌, refl, not, ◌&&◌, Bool, true, false, none, some, [], ◌∷◌, ◌++◌, Bytes, codes, equal,
  arith,
}
use websh.Base.Result.{ok, err, plain}
use websh.Ssh.Library.{Key, Library}
use websh.Ssh.Patterns.{glob_match, hosts_match}
use websh.Ssh.Patterns.Globs.{Globs, glob_match_iff}
use websh.Ssh.Patterns.Negation.{some_pattern, names, excludes, hosts_match-some_match}
use websh.Ssh.Tty.{Tty, eof, yes_no}
use websh.Ssh.Tty.Answers.{yes_no-ne-none}
use websh.Ssh.KnownHosts.{missing, contents, Checker, lookup, host_key_check, Notice, notify}
use websh.Ssh.KnownHosts.Safety.{Accepts, Fit, Changed, host_key_check_iff, host_key_check-Changed}

-- A library that changes no letters and knows no hashes.
abbrev library : Library
library = record {
  trim_space = λ s. s;
  to_lower = λ s. s;
  to_upper = λ s. s;
  equal_fold = equal;
  parse_line = λ s. none;
  normalize = λ s. s;
  line_of = λ h k. h ++ b' ' ∷ k.blob;
  decode64 = λ s. none;
  hmac = λ a b. [];
}

abbrev old_key : Key
old_key = record { kind = codes "ssh-ed25519"; blob = codes "AAAA" }

abbrev new_key : Key
new_key = record { kind = codes "ssh-ed25519"; blob = codes "BBBB" }

abbrev types : Bytes → Tty
types s = record { input = s; end_of = eof; output = [] }

abbrev checker : Checker
checker = record {
  entries =
      record {
        line = 1;
        revoked = false;
        hosts = codes "*.example" ∷ codes "!b.example" ∷ [];
        key = old_key;
      }
      ∷ [];
  disk = record { file = missing; make_dir = ok _; write = λ s. (contents s, ok _) };
  tty = types (codes "maybe" ++ b'\r' ∷ codes "yes" ++ b'\r' ∷ []);
  notices = [];
}

glob_match_iff_example :
    (glob_match (codes "[*]:2?") (codes "[a.b]:22") ≡ true)
    ↔ Globs (codes "[*]:2?") (codes "[a.b]:22")
glob_match_iff_example = glob_match_iff (codes "[*]:2?") (codes "[a.b]:22")

hosts_match-some_match_example :
    let ps = codes "!b.example" ∷ codes "*.example" ∷ [] in
    hosts_match library ps (codes "a.example") ≡ (
      some_pattern (names library (codes "a.example")) ps
      && not (some_pattern (excludes library (codes "a.example")) ps))
hosts_match-some_match_example =
    hosts_match-some_match library (codes "a.example") (codes "!b.example" ∷ codes "*.example" ∷ [])

yes_no-ne-none_example :
    yes_no 7 library (codes "go on? ") (types (codes "ye" ++ b'\r' ∷ codes "no" ++ b'\r' ∷ []))
    ≢ none
yes_no-ne-none_example =
    yes_no-ne-none 7 library (codes "go on? ")
      (types (codes "ye" ++ b'\r' ∷ codes "no" ++ b'\r' ∷ [])) (omega arith)

host_key_check_iff_example :
    Accepts 20 library (codes "c.org") (codes "c.org") new_key checker
    ↔ Fit 20 library
        (codes "c.org")
        (codes "c.org")
        new_key
        checker
        (lookup library checker.entries (codes "c.org"))
host_key_check_iff_example =
    host_key_check_iff 20 library (codes "c.org") (codes "c.org") new_key checker

checker-Changed :
    Changed 20 library
      (codes "a.example")
      (codes "a.example")
      new_key
      (lookup library checker.entries (codes "a.example"))
unfolding lookup hosts_match equal
checker-Changed = ((refl, tt), (λ k. ground (arith, k)), (λ u. ground (arith, u.0)))

host_key_check-Changed_example :
    (n : Notice) × (host_key_check 20 library
        (codes "a.example")
        (codes "a.example")
        new_key
        checker
      ≡ some (notify n checker, err (plain "host key verification failed")))
host_key_check-Changed_example =
    host_key_check-Changed 20 library (codes "a.example") (codes "a.example") new_key checker
      checker-Changed

-- A known pattern, a changed key, and an unknown host, which is asked for until the answer is one.
is_accepted : Bytes → Key → Bool
unfolding host_key_check
is_accepted host key = elim (host_key_check 20 library host host key checker) [
  | some (_, ok _) ↦ true
  | _ ↦ false
]

accepted :
    (is_accepted (codes "a.example") old_key ≡ true)
    × (is_accepted (codes "a.example") new_key ≡ false)
    × (is_accepted (codes "c.org") new_key ≡ true)
unfolding is_accepted
accepted = (refl, refl, refl)
