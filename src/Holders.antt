-- ===== src/Holders.antt =====
-- pkg/framework/serverprocess.go: which process holds the server's socket, from a scan of a node.
pub mod Facts
pub mod Picks
pub mod Names
pub mod Scans
