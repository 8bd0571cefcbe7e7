-- ===== src/Player.antt =====
-- The player thread, its commands, and the client that issues them.
pub mod State
pub mod Decoding
pub mod Commands
pub mod Loop
pub mod Task
pub mod Valid
pub mod Traces
pub mod Answered
pub mod Race
mod Tests
