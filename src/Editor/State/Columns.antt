-- ===== src/Editor/State/Columns.antt =====
-- The layout of a line stays within the terminal.
use websh.Editor.State.{Editor}
