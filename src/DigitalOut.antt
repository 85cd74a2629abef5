-- ===== src/DigitalOut.antt =====
-- The digital outputs: digital_out.c over its backend.
pub mod Log
pub mod Bank
pub mod Wires
pub mod Latch
pub mod Command
