-- ===== src/RaftWal/Tests.antt =====
-- A concrete codec and a concrete raft, and the theorems of the component at them.
mod Toy
mod Examples
mod Nodes
