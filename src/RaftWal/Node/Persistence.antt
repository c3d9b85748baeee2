-- ===== src/RaftWal/Node/Persistence.antt =====
-- What the Ready branch of `run` does with the values of its node, also when the disk fails.
use go_by_example.Prelude.{◌≡◌, ◌∙◌, true, String, lookup, comparable_string, arith}
use go_by_example.RaftWal.Messages.{Codec}
use go_by_example.RaftWal.Disk.{Os}
use go_by_example.RaftWal.Node.{RaftLib, RaftNode, Ready}
use go_by_example.RaftWal.Node.Boot.{boot_hard}
use go_by_example.RaftWal.Node.Committed.{last_write, or_else, apply_committed-lookup}
use go_by_example.RaftWal.Node.Loop.{
  persist_ready, ready_snapshot, ready_storage, store_ready, finish_ready,
}

module _ {S H C M : Type 0} (c : Codec) (raft : RaftLib S H C) where
  ready_storage-kv : (rd : Ready M) (n : RaftNode S H) → (ready_storage c raft rd n).kv ≡ n.kv
  unfolding ready_storage boot_hard
  ready_storage-kv rd n = ground arith

  ready_snapshot-kv :
      (rd : Ready M) (n : RaftNode S H)
      → c.is_empty_snap rd.snapshot ≡ true
      → (ready_snapshot c raft rd.snapshot n).kv ≡ n.kv
  unfolding ready_snapshot
  ready_snapshot-kv rd n empty = rw empty

  -- Storing a Ready without a snapshot keeps the values, whatever the disk does.
  pub store_ready-kv :
      (snap wal : Os) (rd : Ready M) (n : RaftNode S H)
      → c.is_empty_snap rd.snapshot ≡ true
      → (store_ready c raft snap wal rd n).kv ≡ n.kv
  unfolding store_ready
  store_ready-kv snap wal rd n empty =
      let stored = record n { disk = (persist_ready c raft snap wal rd n.disk).0 } in
      ready_storage-kv rd (ready_snapshot c raft rd.snapshot stored)
      ∙ ready_snapshot-kv rd stored empty

  -- Finishing a Ready applies its committed entries.
  pub finish_ready-lookup :
      (own : Os) (rd : Ready M) (n : RaftNode S H) (k : String)
      → lookup k (finish_ready c raft own rd n).kv
        ≡ or_else (last_write c k rd.committed) (lookup k n.kv)
  unfolding finish_ready
  finish_ready-lookup own rd n k = apply_committed-lookup c raft own rd.committed n k
