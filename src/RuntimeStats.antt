-- ===== src/RuntimeStats.antt =====
-- runtime_stats.c: the counters and the histograms of ticks.
pub mod Histogram
pub mod Buckets
pub mod Tallies
pub mod Counters
pub mod Phases
