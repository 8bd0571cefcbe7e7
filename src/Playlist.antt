-- ===== src/Playlist.antt =====
-- Playlist.hxx and the Playlist*.cxx files: the queue being played, and what its operations ask of the player.
pub mod State
pub mod Control
pub mod Edit
pub mod Moves
pub mod Deletes
pub mod Options
pub mod Valid
mod Tests
