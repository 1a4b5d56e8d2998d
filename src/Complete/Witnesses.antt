-- ===== src/Complete/Witnesses.antt =====
-- The completion's theorems for a shell, and some words completed.
use websh.Base.{◌≡◌, refl, true, false, some, [], ◌∷◌, arith, codes}
use websh.Base.Result.{ok}
use websh.Editor.State.{Terminal, Editor, outside}
use websh.Editor.Keys.Bounds.{IsValid}
use websh.Editor.Input.{input}
use websh.Editor.Input.Bounds.{Runs}
use websh.Complete.{Shell, complete}
use websh.Complete.Prefixes.{complete-Runs}

abbrev shell : Shell
shell = record {
  applet_names = codes "cat" ∷ codes "cut" ∷ [];
  native = true;
  dir = codes "/";
  home = codes "/root";
  path = codes "/bin";
  read_dir = λ p. ok (
      record { name = codes "src"; is_dir = true; executable = true }
      ∷ record { name = codes "readme"; is_dir = false; executable = false }
      ∷ []);
  os_read_dir = λ p. ok (record { name = codes "curl"; is_dir = false; executable = true } ∷ []);
}

words_completed :
    (complete shell (codes "cu") true ≡ codes "curl" ∷ codes "cut" ∷ [])
    × (complete shell (codes "~/s") false ≡ codes "~/src/" ∷ [])
    × (complete shell (codes "~/") true ≡ codes "~/readme" ∷ codes "~/src/" ∷ [])
unfolding complete
words_completed = (refl, refl, refl)

-- The line `cat rea` in a terminal whose completion is the shell's.
abbrev terminal : Terminal
terminal = record {
  prompt = some (codes "$ ");
  cols = 40;
  complete = some (complete shell);
  width = λ r. 1;
}

abbrev typed : Editor
typed = record {
  buf = codes "cat rea";
  cursor = 7;
  history = [];
  hist_idx = 0;
  hist_save = [];
  esc = outside;
  csi = [];
  settled = false;
  events = [];
}

complete-Runs_example : Runs (input terminal (9 ∷ 13 ∷ []) typed)
unfolding IsValid
complete-Runs_example =
    complete-Runs shell terminal refl (9 ∷ 13 ∷ []) typed (omega arith, omega arith)
