-- ===== src/Progressive.antt =====
-- progressive: the events of the host in a terminal's input.
pub mod Filter
pub mod Probe
pub mod Shipping
pub mod Conserved
pub mod Reads
pub mod Sequences
mod Tests
mod Witnesses
