-- ===== src/RaftWal.antt =====
-- etcd/raft-wal-restart/main.go: a key-value store over raft with a write-ahead log and snapshots.
pub mod Base64
pub mod Messages
pub mod Disk
pub mod Node
pub mod Cluster
mod Tests
