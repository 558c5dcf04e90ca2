-- ===== src/Nontransparent.antt =====
-- nontransparent: messages that end in a trailer, a line feed or a NUL byte.
mod Tests
pub mod Trailer
pub mod Framer
pub mod Settings
