-- ===== src/Dsd.antt =====
-- The decoders of DSD files.
pub mod Stream
pub mod Dsf
pub mod Dsdiff
mod Disk
mod Tests
