-- ===== src/Tests.antt =====
-- The theorems at concrete inputs.
mod Fixtures
mod Rates
mod Tables
mod Ticks
mod Sessions
mod Frames
mod Alarms
mod Devices
mod Registries
mod Outboxes
mod Answers
mod Scrapes
mod Batches
mod Retentions
mod Hosts
mod Boards
mod Desktop
