-- ===== src/Grace.antt =====
-- pkg/framework/grace.go: what the server's log says about its grace periods.
pub mod Observations
pub mod Phrases
pub mod Streams
pub mod Wording
pub mod Signals
pub mod Windows
pub mod Files
