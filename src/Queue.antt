-- ===== src/Queue.antt =====
-- Queue.hxx and Queue.cxx: the play queue, its operations and what they keep.
pub mod State
pub mod Move
pub mod Order
pub mod Valid
pub mod Contents
pub mod Songs
pub mod Sorted
pub mod Tests
