-- ===== src/PodCaps.antt =====
-- pkg/framework/podcaps.go: the capabilities that a server declares, that its container got, and that it
-- holds.
pub mod Sets
pub mod Reading
pub mod Processes
pub mod Gaps
pub mod Servers
pub mod Masks
