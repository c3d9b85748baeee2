-- ===== src/RaftWal/Node/Loop.antt =====
-- What the Ready branch of `run` does with its own node, with persistReady.
use go_by_example.Prelude.{Option, none, some, Result, ok, err, if◌then◌else◌, comparable_string}
use go_by_example.RaftWal.Messages.{Snapshot, Codec}
use go_by_example.RaftWal.Disk.{Disk, Os, save_snapshot, append_wal, load}
use go_by_example.RaftWal.Disk
use go_by_example.RaftWal.Node.{RaftLib, RaftNode, Ready}
use go_by_example.RaftWal.Node.Boot.{restore, boot_hard}
use go_by_example.RaftWal.Node.Apply.{apply_committed}

module _ {S H C : Type 0} (c : Codec) (raft : RaftLib S H C) where
  or_same : Option (RaftNode S H) → RaftNode S H → RaftNode S H
  or_same none n = n
  or_same (some m) n = m

  unfoldable pub ready_snapshot : Snapshot → RaftNode S H → RaftNode S H
  unfolding or_same restore
  ready_snapshot s n = if c.is_empty_snap s then n else elim (raft.apply_snapshot s n.storage) [
    | none ↦ n
    | some storage ↦
        let m = record n { storage = storage } in
        record (or_same (restore c raft s.payload m) m) {
          last_snapshot_index = s.index;
          conf_state = s.conf_state;
        }
  ]

module _ {S H C M : Type 0} (c : Codec) (raft : RaftLib S H C) where
  then_append :
      Os → Ready M → Disk × Result Disk.Error (Unit {0}) → Disk × Result Disk.Error (Unit {0})
  then_append wal rd (d, ok _) = append_wal c wal d rd.hard_state rd.entries
  then_append wal rd (d, err e) = (d, err e)

  -- persistReady: the log is not written after a snapshot that failed
  unfoldable pub persist_ready :
      (snap wal : Os) → Ready M → Disk → Disk × Result Disk.Error (Unit {0})
  unfolding then_append
  persist_ready snap wal rd d = then_append wal rd (save_snapshot c snap d rd.snapshot)

  unfoldable pub ready_storage : Ready M → RaftNode S H → RaftNode S H
  unfolding boot_hard
  ready_storage rd n =
      let m = boot_hard c raft rd.hard_state n in
      elim (raft.append rd.entries m.storage) [
        | none ↦ m
        | some storage ↦ record m { storage = storage }
      ]

  -- the Ready branch before the messages are delivered; a failure to persist is only logged
  unfoldable pub store_ready : (snap wal : Os) → Ready M → RaftNode S H → RaftNode S H
  unfolding persist_ready ready_snapshot ready_storage
  store_ready snap wal rd n =
      let stored = record n { disk = (persist_ready snap wal rd n.disk).0 } in
      ready_storage rd (ready_snapshot c raft rd.snapshot stored)

  -- the Ready branch after the messages are delivered
  unfoldable pub finish_ready : Os → Ready M → RaftNode S H → RaftNode S H
  unfolding apply_committed
  finish_ready own rd n =
      let applied = apply_committed c raft own rd.committed n in
      record applied { node = raft.advance applied.node }
