-- ===== src/Sensors.antt =====
-- crates/linsight-sensors: the parsers of the kernel's files.
pub mod ProcStat
