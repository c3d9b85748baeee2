-- ===== src/Lib.antt =====
-- The verification library of go-by-example.
--
-- The repository is a collection of Go programs that have a directory each and do not import each
-- other. The library models those with logic of their own, one module per program; the programs
-- that only call a client library (of Redis, MySQL, Kafka, Kubernetes and so on) are left out.
--
-- etcd/raft-wal-restart is the largest. Its node reads its directory at the start (Disk.load, called
-- by Node.Boot), handles what raft has ready (Cluster.Readiness: persist and append in Node.Loop,
-- deliver in Cluster, apply in Node.Apply), and cuts its log with a snapshot now and then
-- (Node.Snapshots), which writes the snapshot file that the next start reads. The cluster delivers
-- messages between the nodes and polls their values.
--
-- Prelude          shared tests, lists, Go maps as association lists, (value, error) results, sorting,
--                  and what the programs use of Go's text packages (Texts)
-- RaftWal          etcd/raft-wal-restart/main.go, a key-value store replicated by raft that restarts
--                  from a write-ahead log and a snapshot file
--   .Base64        the standard library's base64, on bytes as numbers
--   .Messages      hardState, entries, snapshots and walRecord; the encodings as a Codec
--   .Disk          diskStorage: appendWAL (append_wal), saveSnapshot (save_snapshot), load; .Lines is
--                  bufio.Scanner with the 8 MiB limit of load, and TrimSpace; .Record, .History, .Writes, .Reload and
--                  .SnapshotFile are the proofs
--   .Node          raftNode; .Boot is newRaftNode and restoreStateMachineFromSnapshot, .Snapshots is
--                  maybeSnapshot, .Apply is applyCommitted, .Loop is persistReady and what the Ready
--                  branch of run does with its node; .Committed, .Recovery and .Persistence are the proofs
--   .Cluster       the cluster of nodes: stopping, delivering, proposing, electing, polling;
--                  .Readiness is the whole Ready branch of run, .Active is about activeNodeIDs, and
--                  .Members about chooseFollower and the poll for a value
--   .Tests         a toy encoding and a toy raft, with which every result is run
-- LinearRead       etcd/linearizable-read-demo/main.go, readers that one shared loop confirms in
--                  batches: the memory of the goroutines as a record, an atomic action as a Step
--   .Deadlines     applyWait; .Releases and .Triggers are the proofs
--   .Rounds        the invariant of the executions; its children treat the steps one by one
--   .Reads         proofs about all executions; .Confirmed is about a call and the rounds after it,
--                  .Served and .Progress about the steps after which a call can return
--   .Tests         a reader that is served, as a run
-- Transfer         uuid/uuid3/main.go, transfers whose request ids make a repetition harmless; an int
--                  is a number below 2 ^ 64 in two's complement, with its wrap-around
--   .Handling      what one call does; .Calls lets calls run at the same time, each in two atomic
--                  parts, as in the code: the test of the id, and what happens under the lock
--   .Tests         transfers between the two accounts of the program
-- MessageCodec     io/message-codec/main.go, messages behind an 8-byte length; a stream is the list of
--                  the bytes that are still to be read
--   .Framing       what decodeLimit reads and accepts; .Tests decodes a short stream
-- CowTree          cow/main.go, search trees that share nodes after Clone and copy a node of another
--                  context before they write to it; nodes and contexts are numbers of a heap, and
--                  Upsert and Get take fuel, for which the depth of the tree is enough
--   .Shapes        a tree in the heap with the numbers of its nodes; .Upserts (mutableFor), .Children,
--                  .Refinement, .Descent and .Ending are the proofs about upsertNode, .Sharing those
--                  about Upsert and Get, .Clones those about Clone
--   .Tests         the tree that main builds
-- Raft             etcd/raft/main.go, a key-value store over raft that lives in memory
--   .Cluster       the cluster: the branches of run, delivery, stopping, proposing and the polls
--   .Events        executions as lists of events; .NodeViews and .Views are what they do to a node, and
--                  .Replicas is about executions; .Tests runs a toy raft
-- TxnRev           etcd/txn-rev-main-sub/main.go, which commits a transaction and finds its records in
--                  a snapshot of the database
--   .Config        loadConfig; .Endpoints are the proofs
--   .RevKeys       decodeRevisionKey; .Encoded are the proofs, .Numbers and .Splits their lemmas
--   .Records       readRecordsByMainRevision; .Chosen says which records it returns
--   .Client        the calls of etcd, and main as a chain of them; .Guarded is about its transaction
--   .Tests         a toy server and a database of three pairs
-- AsyncStart       etcd/async-start/main.go, a server that tells by channels that it is ready, has
--                  stopped or has failed; the goroutines of the server, of the signals and of main act
--                  on one state
--   .Fit           the invariant of the executions; .Ending is about their length; .Tests is a run
-- BPlusTree        etcd/b+ tree/etcd_bptree_viz.go, which draws the rows of a dump as a B+ tree: the
--                  order of the rows, buildLeaves and generateDot
--   .Leaves        what buildLeaves returns; .Order is about the revisions in the leaves, .Drawing about
--                  generateDot; .Tests builds and draws two leaves
-- Wal              wal/main.go, a map whose Put writes a line to a log before it changes the map; NewWAL,
--                  recover, Get and Close, and Sscanf of the log's format
--   .Lines         the lines of a log and the words of a line; .Recovery is about restarts; .Tests runs
--                  the example of main
-- Informer410      client-go/informer-410-gone-real/main.go in its manual mode: the churn that makes a
--                  resource version stale, the watch from it, and the list and the watch after it is gone
--   .Watching      watchOnce; .Churn is about the churn, .Names about the names of its config maps;
--                  .Tests is a toy server
-- Metcd            etcd/metcd/raft.go: replayWAL, serveChannels with the goroutine that takes proposals,
--                  saveSnap, publishSnapshot and stop, as events on one node; what is sent to commitC is
--                  kept in a list
--   .Serving       what a node takes and publishes, .Published the indices that it publishes; .Tests is a run of a toy library
--
-- Bounds and fuel. Bytes and indices are natural numbers; the lengths, amounts and limits of
-- MessageCodec and Transfer and the revisions of TxnRev are numbers of 64 bits. Base64, the scanners,
-- the regular loops and the tree walks recurse on their data. The polls of the cluster recurse on the
-- rounds that fit before the deadline; in RaftWal a round reads every node twice, each time as it is
-- then. What make takes is a parameter of MessageCodec, the most that the Go runtime allocates at once. Upsert and Get of CowTree recurse on fuel, for which the depth of
-- the tree is enough, and the loop of buildLeaves on fuel, for which the number of rows is.
--
-- Parameters. The protobuf and JSON encodings are a Codec whose laws (CodecLaws) are the round trips
-- that the code relies on; go.etcd.io/raft is a RaftLib of functions on states of its own; for Metcd,
-- etcd's raft, wal, snap and rafthttp are a Lib. The etcd client with its server is an Etcd, whose laws
-- (EtcdLaws) are those of a server that no other client writes to, and the Kubernetes API an Api with
-- ApiLaws of the same kind. The operating system is an Os that says which calls succeed. The tests fill
-- each with a concrete one.
--
-- Not modelled: printing and logging, sleeping (a poll is a round, a time-out a step, and a timer fires
-- at any time), the main functions other than that of TxnRev, the dump and the regular expression of
-- BPlusTree, the informer mode of Informer410, the HTTP side of Metcd, and the programs that only call a
-- library.
pub mod Prelude
pub mod RaftWal
pub mod LinearRead
pub mod Transfer
pub mod MessageCodec
pub mod CowTree
pub mod Raft
pub mod TxnRev
pub mod AsyncStart
pub mod BPlusTree
pub mod Wal
pub mod Informer410
pub mod Metcd
