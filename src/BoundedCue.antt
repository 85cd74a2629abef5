-- ===== src/BoundedCue.antt =====
-- bounded_cue.c: the decoder of jam that holds its input, its depth and its work to limits.
pub mod Reader
pub mod Decode
pub mod Safe
pub mod Atoms
pub mod Bounds
pub mod Whole
pub mod Ended
