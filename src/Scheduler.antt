-- ===== src/Scheduler.antt =====
-- apps/linsightd/src/scheduler.rs: the subscription table and the two phases of a tick. The plugin
-- host is its list of descriptors, and the samples are arguments of `tick_commit`.
pub mod Rate
pub mod Periods
pub mod Table
pub mod Counts
pub mod Tick
