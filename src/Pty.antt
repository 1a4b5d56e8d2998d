-- ===== src/Pty.antt =====
-- shell/pty: a terminal on another machine.
pub mod Escape
pub mod Protocol
pub mod Connection
mod Witnesses
