-- ===== src/Rfc3195.antt =====
-- rfc3195: BEEP frames, and the RAW and COOKED profiles above them.
pub mod Fields
pub mod Frame
pub mod Loop
pub mod Raw
pub mod Cooked
mod Tests
