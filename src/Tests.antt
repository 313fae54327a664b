-- ===== src/Tests.antt =====
-- Runs of the definitions on concrete inputs, and the theorems applied to them.
mod Logs
mod Faults
mod Names
mod Graces
mod Scans
mod Readings
mod Tools
mod Holds
mod Servers
mod Volumes
mod Endings
mod Files
