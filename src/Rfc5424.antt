-- ===== src/Rfc5424.antt =====
-- rfc5424: the messages, and what surrounds the generated state machine.
mod Tests
pub mod Grammar
pub mod Message
pub mod Builder
pub mod Automaton
pub mod Machine
