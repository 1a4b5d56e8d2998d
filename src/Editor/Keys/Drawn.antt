-- ===== src/Editor/Keys/Drawn.antt =====
-- Drawing changes no line: what a key makes of the line, its history and the escape state.
use websh.Base.{ℕ, ◌+◌, ◌≡◌, false, List, [], ◌++◌, arith, length}
use websh.Editor.State.{Terminal, Editor, refresh, change, move_to, settle}
use websh.Editor.Keys.{insert_end}

-- The editor without what it has drawn.
unfoldable pub core : Editor → Editor
core e = record e { events = []; settled = false }

module _ (t : Terminal) (e : Editor) where
  pub change-core : (f : Editor → Editor) → core (change t f e) ≡ core (f e)
  unfolding change refresh core
  change-core f = ground arith

  pub move_to-core : (i : ℕ) → core (move_to t i e) ≡ core (record e { cursor = i })
  unfolding move_to core
  move_to-core i = ground arith

  pub settle-core : core (settle t e) ≡ core e
  unfolding settle core
  settle-core = ground arith

  pub insert_end-core :
      (rs : List ℕ)
      → core (insert_end t rs e)
        ≡ core (record e { buf = e.buf ++ rs; cursor = e.cursor + length rs })
  unfolding insert_end core
  insert_end-core rs = ground arith
