-- ===== src/Sed/Samples.antt =====
-- A host to run scripts on: expressions are plain text, letters have their ASCII case, and every
-- write succeeds.
use Prim.Native.String.{String}
use mathlib.Core.Option
use websh.Base.{
  ℕ, zero, suc, ◌+◌, ◌-◌, ◌≡◌, refl, Bool, true, false, Option, none, some, List, [], ◌∷◌, ◌++◌,
  if◌then◌else◌, Bytes, codes, within, drop, length, has_prefix, equal,
}
use websh.Base.Result.{ok}
use websh.Sed.Host.{Match, Host}
use websh.Sed.Run.{Ended, compile, run}

-- Every place at which `word` stands, from byte `i` on; the first number is to pass.
find_from : Bytes → ℕ → ℕ → Bytes → List Match
find_from word skip i [] = []
find_from word (suc k) i (c ∷ s) = find_from word k (i + 1) s
find_from word zero i (c ∷ s) =
    let here = find_from word (length word - 1) (i + 1) s in
    let later = find_from word 0 (i + 1) s in
    if has_prefix (c ∷ s) word
    then record { start = i; stop = i + length word; groups = [] } ∷ here
    else later

-- The flags `(?s)` take four bytes.
unfoldable pub find_word : Bytes → Bytes → List Match
unfolding find_from has_prefix
find_word re s = find_from (drop 4 re) 0 0 s

unfoldable pub has_match : List Match → Bool
has_match [] = false
has_match (_ ∷ _) = true

abbrev pub host : Host
host = record {
  compiles = λ _. true;
  matches = λ re s. has_match (find_word re s);
  find_all = find_word;
  to_upper = λ r. if within b'a' b'z' r then r - 32 else r;
  to_lower = λ r. if within b'A' b'Z' r then r + 32 else r;
  read_file = some (λ name. if equal name (codes "f") then some (codes "from f") else none);
  open_write = some (λ _. true);
  put = λ w s. (w ++ s, true);
  file_put = λ name w s. (w ++ s, true);
}

-- What a script makes of its inputs.
sed : String → List Bytes → Option (Bytes × Ended)
unfolding compile run find_word has_match
sed script inputs = elim (compile host (codes script) false false) [
  | some (ok p) ↦ Option.map (λ r. (r.1, r.2)) (run 50 50 host p inputs)
  | _ ↦ none
]

abbrev text : Option (Bytes × Ended) → Bytes
text (some (t, _)) = t
text none = codes "none"

abbrev abc : List Bytes
abc = codes "a\nb\nc\nd" ∷ []

abbrev Gives : String → List Bytes → String → Type 0
Gives script inputs expected = text (sed script inputs) ≡ codes expected

samples :
    Gives "" abc "a\nb\nc\nd"
    × Gives "2,3d" abc "a\nd"
    × Gives "s/b/<\\U&x\\E&>/" abc "a\n<BXb>\nc\nd"
    × Gives "$!N;P;D" abc "a\nb\nc\nd\n"
    × Gives "1!G;h;$!d" abc "d\nc\nb\na"
    × Gives "2,3c\\\nnew" abc "a\nnew\nd"
    × Gives "2q" abc "a\nb\n"
    × Gives "=;$a end" (codes "x\n" ∷ codes "y" ∷ []) "1\nx\n2\ny\nend\n"
    × Gives "2r f" abc "a\nb\nfrom f\nc\nd"
    × Gives "y/abc/xyz/;0,/x/s/x/first/" abc "first\ny\nz\nd"
    × Gives ":a;N;$!ba;s/b/+/" abc "a\n+\nc\nd"
    × Gives "1~2d" abc "b\nd"
unfolding sed
samples = (refl, refl, refl, refl, refl, refl, refl, refl, refl, refl, refl, refl)
