-- ===== src/Music.antt =====
-- The buffer of music chunks and the pipes that carry them from the decoder to the player.
pub mod Slices
pub mod Chunk
pub mod Buffer
pub mod Pipe
pub mod Owners
pub mod Frames
pub mod Clear
mod Tests
