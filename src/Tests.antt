-- ===== src/Tests.antt =====
-- Concrete inputs of the theorems, and runs of the code on small ones.
mod Atoms
mod Interpreter
mod Outputs
mod Frames
mod Jams
mod Jets
mod Cues
