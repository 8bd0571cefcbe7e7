-- ===== src/Icy.antt =====
-- Metadata within a stream of samples.
pub mod Text
pub mod Parser
mod Tests
