-- ===== src/Rfc3164.antt =====
-- rfc3164: the messages, the options, and what surrounds the generated state machine.
mod Tests
pub mod Message
pub mod Machine
