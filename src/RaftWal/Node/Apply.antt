-- ===== src/RaftWal/Node/Apply.antt =====
-- applyCommitted.
use go_by_example.Prelude.{Option, none, some, List, [], ◌∷◌, insert, comparable_string}
use go_by_example.RaftWal.Base64.{Bytes}
use go_by_example.RaftWal.Messages.{
  Entry, EntryType, entry_normal, entry_conf_change, entry_conf_change_v2, ConfState, Command,
  Codec,
}
use go_by_example.RaftWal.Disk.{Os}
use go_by_example.RaftWal.Node.{RaftLib, RaftNode}
use go_by_example.RaftWal.Node.Snapshots.{maybe_snapshot}

module _ {S H C : Type 0} (c : Codec) (raft : RaftLib S H C) where
  unfoldable pub apply_command : Option Command → RaftNode S H → RaftNode S H
  apply_command none n = n
  apply_command (some cmd) n = record n { kv = insert cmd.key cmd.value n.kv }

  -- a nil ConfState is ignored
  unfoldable pub changed : H × Option ConfState → RaftNode S H → RaftNode S H
  changed (node, none) n = record n { node = node }
  changed (node, some cs) n = record n { node = node; conf_state = cs }

  unfoldable pub apply_change : Option C → RaftNode S H → RaftNode S H
  unfolding changed
  apply_change none n = n
  apply_change (some change) n = changed (raft.apply_conf_change change n.node) n

  unfoldable pub apply_normal : Bytes → RaftNode S H → RaftNode S H
  unfolding apply_command
  apply_normal [] n = n
  apply_normal (b ∷ s) n = apply_command (c.unmarshal_command (b ∷ s)) n

  unfoldable pub apply_kind : EntryType → Bytes → RaftNode S H → RaftNode S H
  unfolding apply_normal apply_change
  apply_kind entry_normal b n = apply_normal b n
  apply_kind entry_conf_change b n = apply_change (raft.unmarshal_conf_change b) n
  apply_kind entry_conf_change_v2 b n = apply_change (raft.unmarshal_conf_change_v2 b) n

  unfoldable pub apply_entry : Entry → RaftNode S H → RaftNode S H
  unfolding apply_kind
  apply_entry e n = apply_kind e.kind e.payload (record n { applied_index = e.index })

  unfoldable pub apply_entries : List Entry → RaftNode S H → RaftNode S H
  unfolding apply_entry
  apply_entries [] n = n
  apply_entries (e ∷ es) n = apply_entries es (apply_entry e n)

  unfoldable pub apply_committed : Os → List Entry → RaftNode S H → RaftNode S H
  unfolding apply_entries maybe_snapshot
  apply_committed os [] n = n
  apply_committed os (e ∷ es) n = maybe_snapshot c raft os (apply_entries (e ∷ es) n)
