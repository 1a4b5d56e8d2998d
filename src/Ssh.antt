-- ===== src/Ssh.antt =====
-- shell/ssh: the ssh client's prompts, keys and known hosts.
pub mod Args
pub mod Mosh
pub mod Library
pub mod Tty
pub mod Patterns
pub mod KnownHosts
mod Witnesses
