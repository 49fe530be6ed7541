-- ===== src/Tests.antt =====
-- The theorems at concrete inputs.
mod Queues
mod Nets
mod Reads
mod Graphs
mod Threads
mod Documents
mod Configs
mod Consistent
mod Traffics
mod Screens
mod Rates
