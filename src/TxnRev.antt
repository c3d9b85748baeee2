-- ===== src/TxnRev.antt =====
-- etcd/txn-rev-main-sub/main.go: a program that commits one transaction on an etcd server and finds
-- its records in a snapshot of the server's database.
pub mod Config
pub mod RevKeys
pub mod Records
pub mod Client
mod Tests
