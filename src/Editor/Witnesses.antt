-- ===== src/Editor/Witnesses.antt =====
-- The theorems on the line editor at concrete inputs, and some runs.
use websh.Base.{
  ◌≡◌, refl, sym, ap, ◌∙◌, Bool, false, Option, none, some, [], ◌∷◌, ◌++◌, arith, Bytes, codes,
}
use websh.Editor.State.{Terminal, outside, Editor}
use websh.Editor.Keys.{handle_csi}
use websh.Editor.Keys.History.{handle_csi-handle_csi}
use websh.Editor.Input.{input}
use websh.Editor.Input.Bounds.{Extends, Runs, input-Runs}
use websh.Editor.Keys.Bounds.{IsValid}
use websh.Editor.Input.Typing.{Submitted, input-Submitted}

-- A terminal of ten cells with a prompt, which has two candidates for every word.
abbrev terminal : Terminal
terminal = record {
  prompt = some (codes "$ ");
  cols = 10;
  complete = some (λ word first. codes "a longer word" ∷ codes "a long word" ∷ []);
  width = λ r. 1;
}

abbrev fresh : Editor
fresh = record {
  buf = codes "ec";
  cursor = 2;
  history = codes "ls" ∷ [];
  hist_idx = 1;
  hist_save = [];
  esc = outside;
  csi = [];
  settled = false;
  events = [];
}

abbrev line_of : Option Editor → Bytes
line_of none = codes "none"
line_of (some e) = e.buf

-- Up, home, a letter, and Ctrl+K; and up and down.
runs :
    (line_of (input terminal (0x1b ∷ codes "[A" ++ (1 ∷ b'a' ∷ [])) fresh) ≡ codes "als")
    × (line_of (input terminal (1 ∷ b'a' ∷ 0xb ∷ []) fresh) ≡ codes "a")
    × (line_of (input terminal (0x1b ∷ codes "[A" ++ (0x1b ∷ codes "[B")) fresh) ≡ codes "ec")
unfolding input
runs = (refl, refl, refl)

terminal-Extends : Extends terminal
unfolding Extends
terminal-Extends complete h word first c k =
    let two = codes "a longer word" ∷ codes "a long word" ∷ [] in
    let same : some (λ (_ : Bytes) (_ : Bool). two) ≡ some complete = h in
    let given : complete ≡ (λ _ _. two) = cc in
    let both : two ≡ c ∷ [] = sym (ap (λ f. f word first) given) ∙ k in absurd cc

input-Runs_example : Runs (input terminal (0x1b ∷ codes "[D" ++ (0x17 ∷ 9 ∷ [])) fresh)
unfolding IsValid
input-Runs_example =
    input-Runs terminal terminal-Extends (0x1b ∷ codes "[D" ++ (0x17 ∷ 9 ∷ [])) fresh
      (omega arith, omega arith)

input-Submitted_example : Submitted terminal (input terminal (codes "ho\r") fresh) (codes "echo")
input-Submitted_example =
    input-Submitted terminal (codes "ho") fresh (codes "ec") ((refl, refl), ((refl, refl), tt))
      (refl, refl, refl)

handle_csi-handle_csi_example :
    let e' = handle_csi terminal (codes "B") (handle_csi terminal (codes "A") fresh) in
    (e'.buf ≡ codes "ec") × (e'.cursor ≡ 2) × (e'.hist_idx ≡ 1)
handle_csi-handle_csi_example = handle_csi-handle_csi terminal fresh (omega arith) refl
