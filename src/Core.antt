-- ===== src/Core.antt =====
-- crates/linsight-core: the types that the daemon, the plugins and the clients share.
pub mod Samples
pub mod Chars
pub mod Order
pub mod Numbers
pub mod Durations
pub mod Hardware
