-- ===== src/RaftWal/Node.antt =====
-- raftNode of etcd/raft-wal-restart/main.go. go.etcd.io/raft is a parameter of the model.
pub mod Boot
pub mod Snapshots
pub mod Apply
pub mod Loop
pub mod Committed
pub mod Recovery
pub mod Persistence
use go_by_example.Prelude.{
  ℕ, zero, suc, ◌+◌, ◌-◌, ◌≤◌, ◌≡◌, Bool, true, false, not, ◌||◌, Option, none, some, List, [], ◌∷◌,
  String, Result, ok, err, ◌>>=◌, or_fail, if◌then◌else◌, ltb, leb, eqb, Map, insert,
  comparable_string,
}
use go_by_example.Prelude.Sorting.{sort}
use go_by_example.RaftWal.Base64.{Bytes}
use go_by_example.RaftWal.Messages.{
  HardState, Entry, EntryType, entry_normal, entry_conf_change, entry_conf_change_v2, ConfState,
  Snapshot, StateMachineSnapshot, Command, BootState, Codec,
}
use go_by_example.RaftWal.Disk.{Disk, Os, save_snapshot, append_wal, load}
use go_by_example.RaftWal.Disk

-- What the code calls of go.etcd.io/raft: MemoryStorage `S`, Node `H` and configuration changes `C`.
pub record RaftLib (S H C : Type 0) : Type 0 where
  pub new_storage : S
  pub apply_snapshot : Snapshot → S → Option S
  pub append : List Entry → S → Option S
  pub set_hard_state : HardState → S → S
  pub create_snapshot : ℕ → ConfState → Bytes → S → Option (Snapshot × S)
  pub compact : ℕ → S → Option S
  -- by the identifier, the peers or the applied index
  pub start_node : ℕ → List ℕ → S → H
  pub restart_node : ℕ → ℕ → S → H
  pub unmarshal_conf_change : Bytes → Option C
  pub unmarshal_conf_change_v2 : Bytes → Option C
  pub apply_conf_change : C → H → H × Option ConfState
  pub advance : H → H

-- What is documented of CreateSnapshot: the snapshot is of the index and the data given.
pub record RaftLaws {S H C : Type 0} (raft : RaftLib S H C) : Type 0 where
  pub created :
      (i : ℕ) (cs : ConfState) (b : Bytes) (s s' : S) (snap : Snapshot)
      → raft.create_snapshot i cs b s ≡ some (snap, s')
      → (snap.index ≡ i) × (snap.payload ≡ b)

pub record RaftNode (S H : Type 0) : Type 0 where
  pub id : ℕ
  pub node : H
  pub storage : S
  pub disk : Disk
  pub kv : Map String String
  pub applied_index : ℕ
  pub stopped : Bool
  pub conf_state : ConfState
  pub last_snapshot_index : ℕ
  pub snapshot_every : ℕ
  pub snapshot_catch_up : ℕ

-- raft.Ready, with messages `M`
pub record Ready (M : Type 0) : Type 0 where
  pub snapshot : Snapshot
  pub hard_state : HardState
  pub entries : List Entry
  pub messages : List M
  pub committed : List Entry

pub data BootError : Type 0 where
  load_failed : Disk.Error → BootError
  apply_failed restore_failed append_failed : BootError

-- peerIDs
unfoldable pub peer_ids : List ℕ → List ℕ
peer_ids peers = sort (λ i. i) peers

abbrev pub map_or_empty : Option (Map String String) → Map String String
map_or_empty none = []
map_or_empty (some m) = m
