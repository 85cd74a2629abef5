-- ===== src/Trace.antt =====
-- trace.c: the ring of trace records and the software watchdog that writes to it.
pub mod Ring
pub mod Window
pub mod History
