-- ===== src/Edit.antt =====
-- shell/edit.go: the text editor.
pub mod Buffer
pub mod Screen
pub mod Keys
pub mod Shown
pub mod Returns
pub mod Lines
pub mod Places
pub mod Text
pub mod Saved
mod Witnesses
