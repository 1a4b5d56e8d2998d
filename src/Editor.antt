-- ===== src/Editor.antt =====
-- shell/editor.go and shell/cells.go: the line editor of the prompt.
pub mod Cells
pub mod State
pub mod Keys
pub mod Input
mod Witnesses
