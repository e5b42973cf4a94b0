-- ===== src/Bpm.antt =====
-- src/bpm: the frames of the buffer pool and the choice of a frame to evict.
pub mod Frames
pub mod Swept
pub mod Clock
pub mod Pool
pub mod State
pub mod Manager
pub mod Consistent
pub mod Preserved
pub mod Claim
pub mod Fetch
pub mod Flush
pub mod View
pub mod Instance
pub mod Policy
pub mod Codec
