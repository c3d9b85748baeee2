-- ===== src/Raft.antt =====
-- raftNode of etcd/raft/main.go, a key-value store over go.etcd.io/raft that lives in memory. The
-- library is a parameter: MemoryStorage `S`, Node `H`, messages `M`, configuration changes `C`,
-- hard states `T` and snapshots `P`.
pub mod Cluster
pub mod Events
pub mod NodeViews
pub mod Views
pub mod Replicas
mod Tests
use go_by_example.Prelude.{
  ℕ, Bool, true, false, Option, none, some, List, [], ◌∷◌, String, if◌then◌else◌, Map, insert,
  lookup, comparable_string,
}

pub record Command : Type 0 where
  pub key : String
  pub value : String

-- raftpb.EntryType; the code has no case for the last one
pub data EntryType : Type 0 where
  entry_normal entry_conf_change entry_conf_change_v2 : EntryType

-- raftpb.Entry
pub record Entry : Type 0 where
  pub index : ℕ
  pub kind : EntryType
  pub payload : List ℕ

-- raft.Ready
pub record Ready (M T P : Type 0) : Type 0 where
  pub snapshot : P
  pub hard_state : T
  pub entries : List Entry
  pub messages : List M
  pub committed : List Entry

-- What the code calls of the library, and the JSON of a command.
pub record RaftLib (S H M C T P : Type 0) : Type 0 where
  pub new_storage : S
  pub start_node : ℕ → List ℕ → S → H
  pub tick : H → H
  pub advance : H → H
  pub stop : H → H
  pub target : M → ℕ
  pub step : M → H → Option H
  pub propose : List ℕ → H → Option H
  pub is_leader : H → Bool
  pub is_empty_snap : P → Bool
  pub apply_snapshot : P → S → Option S
  pub is_empty_hard : T → Bool
  pub set_hard_state : T → S → S
  pub append : List Entry → S → Option S
  pub unmarshal_conf_change : List ℕ → Option C
  pub apply_conf_change : C → H → H
  pub unmarshal_command : List ℕ → Option Command
  pub marshal_command : Command → Option (List ℕ)

-- `stopped` says that stopCh is closed, `done` that doneCh is: the goroutine of `run` has returned.
pub record RaftNode (S H : Type 0) : Type 0 where
  pub id : ℕ
  pub node : H
  pub storage : S
  pub kv : Map String String
  pub applied_index : ℕ
  pub stopped : Bool
  pub done : Bool

abbrev or_same : {A : Type 0} → A → Option A → A
or_same a none = a
or_same a (some b) = b

module _ {S H M C T P : Type 0} (raft : RaftLib S H M C T P) where
  -- newCluster, of one node
  unfoldable pub new_node : List ℕ → ℕ → RaftNode S H
  new_node peers id = record {
    id = id;
    node = raft.start_node id peers raft.new_storage;
    storage = raft.new_storage;
    kv = [];
    applied_index = 0;
    stopped = false;
    done = false;
  }

  -- the effect of an entry on the values
  unfoldable pub set_command : Option Command → Map String String → Map String String
  set_command none kv = kv
  set_command (some cmd) kv = insert cmd.key cmd.value kv

  unfoldable pub apply_normal : List ℕ → RaftNode S H → RaftNode S H
  unfolding set_command
  apply_normal [] n = n
  apply_normal (b ∷ bs) n = record n { kv = set_command (raft.unmarshal_command (b ∷ bs)) n.kv }

  unfoldable pub apply_change : Option C → RaftNode S H → RaftNode S H
  apply_change none n = n
  apply_change (some change) n = record n { node = raft.apply_conf_change change n.node }

  unfoldable pub apply_kind : EntryType → List ℕ → RaftNode S H → RaftNode S H
  unfolding apply_normal apply_change
  apply_kind entry_normal b n = apply_normal b n
  apply_kind entry_conf_change b n = apply_change (raft.unmarshal_conf_change b) n
  apply_kind entry_conf_change_v2 b n = n

  unfoldable pub apply_committed : List Entry → RaftNode S H → RaftNode S H
  unfolding apply_kind
  apply_committed [] n = n
  apply_committed (e ∷ es) n =
      apply_committed es (apply_kind e.kind e.payload (record n { applied_index = e.index }))

  unfoldable pub store_snapshot : P → S → S
  store_snapshot p s = if raft.is_empty_snap p then s else or_same s (raft.apply_snapshot p s)

  unfoldable pub store_hard : T → S → S
  store_hard t s = if raft.is_empty_hard t then s else raft.set_hard_state t s

  -- the storage part of the Ready branch of `run`; failures are only logged
  unfoldable pub store_ready : Ready M T P → S → S
  unfolding store_snapshot store_hard
  store_ready rd s =
      let stored = store_hard rd.hard_state (store_snapshot rd.snapshot s) in
      or_same stored (raft.append rd.entries stored)

  unfoldable pub stop : RaftNode S H → RaftNode S H
  stop n = if n.stopped then n else record n { stopped = true }

  unfoldable pub get_value : String → RaftNode S H → Option String
  get_value key n = lookup key n.kv

  unfoldable pub kv_snapshot : RaftNode S H → ℕ × Map String String
  kv_snapshot n = (n.applied_index, n.kv)
