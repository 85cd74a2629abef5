-- ===== src/Nock/Sound.antt =====
-- The evaluator beside the definition of Nock.
pub mod Denote
pub mod Axes
pub mod Ops
pub mod Whole
