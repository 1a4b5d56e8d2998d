-- ===== src/Applets/Witnesses.antt =====
-- The applets' theorems at concrete arguments and lines.
use mathlib.Core.List.{Perm, IsChain}
use websh.Base.{
  ◌-◌, ◌≡◌, refl, ap, ◌∙◌, Bool, true, false, Option, none, some, List, [], ◌∷◌, if◌then◌else◌,
  arith, Bytes, codes, ends_in, equal,
}
use websh.Base.Result.{Fault, Result, ok, err}
use websh.Base.Int.{pos, negsuc, int_limit}
use websh.Applets.{Handler, prints, parse_flags}
use websh.Applets.Lines.{run_head, run_tail, run_sort, run_uniq, runs_from, sort_lines}
use websh.Applets.Cut.{run_cut}
use websh.Applets.Text.{run_tr}
use websh.Applets.Numbers.{seq_numbers, run_seq, run_xxd}
use websh.Applets.Counts.{Returns, counts-Returns}
use websh.Applets.Runs.{AreRuns, expanded, uniq-AreRuns}
use websh.Applets.Order.{InOrder}
use websh.Applets.Sorted.{sort_lines-InOrder}
use websh.Applets.Sequence.{
  InRange, plus, progression, seq_count, seq_numbers-progression, seq_numbers-greatest,
}
use websh.Applets.Files.{Info, Fs, run_rm}
use websh.Applets.Files.Kept.{run_rm-Kept}

abbrev some_lines : List Bytes
some_lines = codes "10" ∷ codes "9" ∷ codes "9" ∷ codes "x" ∷ []

abbrev handler : Handler
handler = record {
  stdin = ok (codes "b:x:y\nab c\nab c\n");
  dir = codes "/";
  read_file = λ p. ok [];
}

-- `uniq -c`, `cut -d: -f 2-`, `tr a-c A-C` and `sort -r` on the lines of the input
texts_printed :
    (run_uniq handler (codes "-c" ∷ []) ≡ prints (codes "      1 b:x:y\n      2 ab c\n"))
    × (run_cut handler (codes "-d:" ∷ codes "-f" ∷ codes "2-" ∷ [])
        ≡ prints (codes "x:y\nab c\nab c\n"))
    × (run_tr handler (codes "a-c" ∷ codes "A-C" ∷ []) ≡ prints (codes "B:x:y\nAB C\nAB C\n"))
    × (run_sort (λ s. s) handler (codes "-r" ∷ []) ≡ prints (codes "b:x:y\nab c\nab c\n"))
unfolding ends_in run_cut run_sort run_tr run_uniq
texts_printed = (refl, refl, refl, refl)

-- `seq 3 -2 -2`, `seq -5 3`, whose first argument is taken for flags, and `xxd`
numbers_printed :
    (run_seq 9 (codes "3" ∷ codes "-2" ∷ codes "-2" ∷ []) ≡ some (prints (codes "3\n1\n-1\n")))
    × (run_seq 9 (codes "-5" ∷ codes "3" ∷ []) ≡ some (prints (codes "1\n2\n3\n")))
    × (run_xxd (record { stdin = ok (codes "ab c"); dir = codes "/"; read_file = λ p. ok [] }) []
        ≡ prints (codes "00000000: 6162 2063                                ab c\n"))
unfolding run_seq run_xxd
numbers_printed = (refl, refl, refl)

counts-Returns_example :
    Returns (run_head handler (codes "-n" ∷ codes "--" ∷ codes "-3" ∷ []))
    × Returns (run_tail handler (codes "-n" ∷ codes "--" ∷ codes "-3" ∷ []))
counts-Returns_example = counts-Returns handler (codes "-n" ∷ codes "--" ∷ codes "-3" ∷ [])

uniq-AreRuns_example :
    AreRuns (runs_from [] 0 some_lines) × (expanded (runs_from [] 0 some_lines) ≡ some_lines)
uniq-AreRuns_example = uniq-AreRuns some_lines

sort_lines-InOrder_example :
    Perm (sort_lines (λ s. s) true true some_lines) some_lines
    × IsChain (InOrder (λ s. s) true true) (sort_lines (λ s. s) true true some_lines)
sort_lines-InOrder_example = sort_lines-InOrder (λ s. s) true true some_lines

seq_numbers-progression_example :
    seq_numbers 20 (negsuc 4) (pos 3) (pos 6)
    ≡ some (progression (seq_count (negsuc 4) 2 (pos 6)) (negsuc 4) 3)
unfolding InRange plus
seq_numbers-progression_example =
    seq_numbers-progression 20 (negsuc 4) 2 (pos 6) (omega arith) (omega arith) (omega arith)
      (omega arith)

seq_numbers-greatest_example : seq_numbers 1000 (negsuc 4) (pos 7) (pos (int_limit - 1)) ≡ none
unfolding InRange
seq_numbers-greatest_example = seq_numbers-greatest 1000 (negsuc 4) 6 (omega arith)

-- a file system with a directory `/d` and a file `/f`, each there or not
abbrev Both : Type 0
Both = Bool × Bool

abbrev dir_info : Info
dir_info = record { name = codes "d"; is_dir = true; size = 0; mode = 0 }

abbrev file_info : Info
file_info = record { name = codes "f"; is_dir = false; size = 0; mode = 0 }

abbrev missing : Bytes → Result Info
missing p = err (Fault.with_text "%s: no such file" p)

-- what is said of a path that is the directory's or the file's
abbrev stat_of : Bytes → Bool → Bool → Both → Result Info
stat_of p true f (d, g) = if d then ok dir_info else missing p
stat_of p false true (d, g) = if g then ok file_info else missing p
stat_of p false false s = missing p

abbrev removed : Bool → Bool → Both → Both
removed true f (d, g) = (false, g)
removed false true (d, g) = (d, false)
removed false false s = s

unfoldable stat_both : Both → Bytes → Result Info
unfolding equal
stat_both s p = stat_of p (equal p (codes "/d")) (equal p (codes "/f")) s

unfoldable remove_both : Both → Bytes → Both × Option Fault
unfolding equal
remove_both s p = (removed (equal p (codes "/d")) (equal p (codes "/f")) s, none)

abbrev same : Both → Both × Option Fault
same s = (s, none)

abbrev files : Fs
files = record {
  State = Both;
  stat = stat_both;
  open_stat = stat_both;
  read_dir = λ s p. ok [];
  read_file = λ s p. ok [];
  mkdir = λ s p. same s;
  mkdir_all = λ s p. same s;
  remove = remove_both;
  remove_all = remove_both;
  rename = λ s p q. same s;
  chmod = λ s p m. same s;
  create = λ s p. same s;
  close = λ s p. same s;
  chtimes = λ s p. same s;
  truncate = λ s p m. same s;
  copy_data = λ s p q. same s;
}

-- the directory is there
abbrev HasDir : Both → Type 0
HasDir s = s.0 ≡ true

remove_both-HasDir :
    (s : Both) (p : Bytes) (i : Info)
    → stat_both s p ≡ ok i
    → i.is_dir ≡ false
    → HasDir s
    → HasDir (remove_both s p).0
unfolding remove_both stat_both
remove_both-HasDir s p i h k d = go (equal p (codes "/d")) (equal p (codes "/f")) s h d
  where
    go : (a b : Bool) (t : Both) → stat_of p a b t ≡ ok i → HasDir t → HasDir (removed a b t)
    go true b (x, y) h d =
        let said : (if x then ok dir_info else missing p) ≡ ok dir_info = rw d refl in
        let found : dir_info ≡ i = cc in
        let wrong : true ≡ false = ap (λ j. j.is_dir) found ∙ k in cc
    go false true t h d = d
    go false false t h d = d

run_rm-Kept_example :
    HasDir (run_rm files (codes "/") (true, true) (codes "-f" ∷ codes "d" ∷ codes "f" ∷ [])).0
unfolding parse_flags
run_rm-Kept_example =
    run_rm-Kept files HasDir remove_both-HasDir (codes "/") (true, true)
      (codes "-f" ∷ codes "d" ∷ codes "f" ∷ []) refl refl
