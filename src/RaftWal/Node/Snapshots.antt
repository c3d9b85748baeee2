-- ===== src/RaftWal/Node/Snapshots.antt =====
-- maybeSnapshot and stateMachineSnapshotData.
use go_by_example.Prelude.{
  ℕ, ◌-◌, ◌||◌, Option, none, some, Result, ok, err, if◌then◌else◌, ltb, leb, eqb,
  comparable_string, ◌≡◌, arith, refl, Option-cases, inl, inr,
}
use go_by_example.RaftWal.Base64.{Bytes}
use go_by_example.RaftWal.Messages.{Snapshot, Codec}
use go_by_example.RaftWal.Disk.{Disk, Os, save_snapshot, append_wal, load}
use go_by_example.RaftWal.Disk
use go_by_example.RaftWal.Node.{RaftLib, RaftNode}

module _ {S H C : Type 0} (c : Codec) (raft : RaftLib S H C) where
  -- stateMachineSnapshotData
  unfoldable pub snapshot_data : RaftNode S H → Option Bytes
  snapshot_data n = c.marshal_state (record { kv = some n.kv; applied_index = n.applied_index })

  -- the index up to which the log is dropped after a snapshot
  unfoldable pub compact_to : RaftNode S H → Snapshot → ℕ
  compact_to n s = if ltb n.snapshot_catch_up s.index then s.index - n.snapshot_catch_up else 1

  unfoldable pub compact_log : Snapshot → RaftNode S H → RaftNode S H
  unfolding compact_to
  compact_log s n = elim (raft.compact (compact_to n s) n.storage) [
    | none ↦ n
    | some storage ↦ record n { storage = storage }
  ]

  -- a snapshot that cannot be written to disk does not count
  unfoldable pub keep_snapshot :
      Snapshot → Disk × Result Disk.Error (Unit {0}) → RaftNode S H → RaftNode S H
  unfolding compact_log
  keep_snapshot s (d, ok _) n = compact_log s (record n { disk = d; last_snapshot_index = s.index })
  keep_snapshot s (d, err _) n = record n { disk = d }

  unfoldable pub take_snapshot : Os → Option Bytes → RaftNode S H → RaftNode S H
  unfolding keep_snapshot
  take_snapshot os none n = n
  take_snapshot os (some b) n =
      elim (raft.create_snapshot n.applied_index n.conf_state b n.storage) [
        | none ↦ n
        | some (s, storage) ↦
            keep_snapshot s (save_snapshot c os n.disk s) (record n { storage = storage })
      ]

  unfoldable pub maybe_snapshot : Os → RaftNode S H → RaftNode S H
  unfolding take_snapshot snapshot_data
  maybe_snapshot os n =
      if eqb n.applied_index 0
      then n
      else if leb n.applied_index n.last_snapshot_index
          || ltb (n.applied_index - n.last_snapshot_index) n.snapshot_every
      then n
      else take_snapshot os (snapshot_data n) n

  -- the parts of the node that a snapshot leaves alone
  abbrev pub Keeps : RaftNode S H → RaftNode S H → Type 0
  Keeps n m = (m.kv ≡ n.kv) × (m.applied_index ≡ n.applied_index)

  compact_log-Keeps : (s : Snapshot) (n : RaftNode S H) → Keeps n (compact_log s n)
  unfolding compact_log
  compact_log-Keeps s n = ground arith

  keep_snapshot-Keeps :
      (s : Snapshot) (r : Disk × Result Disk.Error (Unit {0})) (n : RaftNode S H)
      → Keeps n (keep_snapshot s r n)
  unfolding keep_snapshot
  keep_snapshot-Keeps s (d, ok _) n =
      compact_log-Keeps s (record n { disk = d; last_snapshot_index = s.index })
  keep_snapshot-Keeps s (d, err _) n = (refl, refl)

  take_snapshot-Keeps :
      (os : Os) (b : Option Bytes) (n : RaftNode S H) → Keeps n (take_snapshot os b n)
  unfolding take_snapshot
  take_snapshot-Keeps os none n = (refl, refl)
  take_snapshot-Keeps os (some b) n =
      elim (Option-cases (raft.create_snapshot n.applied_index n.conf_state b n.storage)) [
        | inl e ↦ rw (e, take_snapshot) (refl, refl)
        | inr ((s, storage), e) ↦
            rw (e, take_snapshot)
              (keep_snapshot-Keeps s (save_snapshot c os n.disk s) (record n { storage = storage }))
      ]

  -- Taking a snapshot changes neither the values nor the applied index.
  pub maybe_snapshot-Keeps : (os : Os) (n : RaftNode S H) → Keeps n (maybe_snapshot os n)
  unfolding maybe_snapshot
  maybe_snapshot-Keeps os n = ground (arith, take_snapshot-Keeps os (snapshot_data n) n)
