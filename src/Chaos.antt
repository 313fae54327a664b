-- ===== src/Chaos.antt =====
-- pkg/chaos/chaos.go: which server pod a fault is aimed at, which process, and what a fault does. The
-- parts of pkg/framework/server.go that decide about a pod are here too.
pub mod Pods
pub mod Processes
pub mod Kills
pub mod Targets
pub mod Faults
