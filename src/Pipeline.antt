-- ===== src/Pipeline.antt =====
-- pipeline/: the scheduling of a run's graph.
pub mod Graph
pub mod Pools
pub mod Scheduler
pub mod Values
