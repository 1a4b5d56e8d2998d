-- ===== src/Sed.antt =====
-- shell/sed: the stream editor. Parse reads a script, Run works it over the input.
pub mod Types
pub mod Applet
pub mod Translate
pub mod Parse
pub mod Host
pub mod Input
pub mod Output
pub mod Ranges
pub mod Substitute
pub mod State
pub mod Commands
pub mod Exec
pub mod Run
pub mod Numbers
mod Samples
mod Witnesses
