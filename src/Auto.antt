-- ===== src/Auto.antt =====
-- auto: detection of the format of a message, and the machine that tries both formats.
mod Tests
pub mod Format
pub mod Detect
pub mod Machine
pub mod Transport
