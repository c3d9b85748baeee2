-- ===== src/RaftWal/Messages.antt =====
-- The types of etcd/raft-wal-restart/main.go, and what the code relies on of raftpb, of raft's
-- tests for empty values, and of encoding/json.
use go_by_example.Prelude.{
  ℕ, ◌≡◌, ◌≢◌, ◌↔◌, Bool, true, false, Option, some, List, [], ◌∷◌, ◌++◌, String, Map, All, lookup,
  eqb, comparable_string,
}
use go_by_example.RaftWal.Base64.{Bytes, IsByte}

-- raftpb.HardState
pub record HardState : Type 0 where
  pub term : ℕ
  pub vote : ℕ
  pub commit : ℕ

-- raftpb.EntryType
pub data EntryType : Type 0 where
  entry_normal entry_conf_change entry_conf_change_v2 : EntryType

-- raftpb.Entry
pub record Entry : Type 0 where
  pub term : ℕ
  pub index : ℕ
  pub kind : EntryType
  pub payload : Bytes

-- raftpb.ConfState, of which the code reads and writes the voters
pub record ConfState : Type 0 where
  pub voters : List ℕ

-- raftpb.Snapshot, with its metadata
pub record Snapshot : Type 0 where
  pub payload : Bytes
  pub conf_state : ConfState
  pub index : ℕ
  pub term : ℕ

pub record Command : Type 0 where
  pub key : String
  pub value : String

-- a nil map is `none`
pub record StateMachineSnapshot : Type 0 where
  pub kv : Option (Map String String)
  pub applied_index : ℕ

pub record WalRecord : Type 0 where
  pub hard_state : Bytes
  pub entries : List Bytes

pub record BootState : Type 0 where
  pub has_state : Bool
  pub hard : HardState
  pub entries : List Entry
  pub snapshot : Snapshot

abbrev pub zero_hard : HardState
zero_hard = record { term = 0; vote = 0; commit = 0 }

abbrev pub zero_snapshot : Snapshot
zero_snapshot = record { payload = []; conf_state = record { voters = [] }; index = 0; term = 0 }

-- a byte that may stand inside a line
abbrev pub NoBreak : ℕ → Type 0
NoBreak b = eqb b 10 ≡ false

-- `Marshal` and `Unmarshal`: protobuf for the raft messages, JSON for the others.
pub record Codec : Type 0 where
  pub marshal_hard : HardState → Option Bytes
  pub unmarshal_hard : Bytes → Option HardState
  pub marshal_entry : Entry → Option Bytes
  pub unmarshal_entry : Bytes → Option Entry
  pub marshal_snapshot : Snapshot → Option Bytes
  pub unmarshal_snapshot : Bytes → Option Snapshot
  pub marshal_record : WalRecord → Option Bytes
  pub unmarshal_record : Bytes → Option WalRecord
  pub marshal_state : StateMachineSnapshot → Option Bytes
  pub unmarshal_state : Bytes → Option StateMachineSnapshot
  pub marshal_command : Command → Option Bytes
  pub unmarshal_command : Bytes → Option Command
  -- raft.IsEmptyHardState and raft.IsEmptySnap
  pub is_empty_hard : HardState → Bool
  pub is_empty_snap : Snapshot → Bool

-- What is documented of them.
pub record CodecLaws (c : Codec) : Type 0 where
  pub hard_round :
      (h : HardState) (b : Bytes) → c.marshal_hard h ≡ some b → c.unmarshal_hard b ≡ some h
  -- the fields of a HardState are always written, so its encoding is not empty
  pub hard_bytes : (h : HardState) (b : Bytes) → c.marshal_hard h ≡ some b → All IsByte b × (b ≢ [])
  pub entry_round :
      (e : Entry) (b : Bytes) → c.marshal_entry e ≡ some b → c.unmarshal_entry b ≡ some e
  pub entry_bytes : (e : Entry) (b : Bytes) → c.marshal_entry e ≡ some b → All IsByte b
  pub snapshot_round :
      (s : Snapshot) (b : Bytes) → c.marshal_snapshot s ≡ some b → c.unmarshal_snapshot b ≡ some s
  pub record_round :
      (r : WalRecord) (b : Bytes) → c.marshal_record r ≡ some b → c.unmarshal_record b ≡ some r
  -- a JSON object stands between braces, and line breaks are escaped
  pub record_braces :
      (r : WalRecord) (b : Bytes)
      → c.marshal_record r ≡ some b
      → (inner : Bytes) × (b ≡ b'{' ∷ (inner ++ b'}' ∷ [])) × All NoBreak inner
  -- a map is written in the order of its keys, so it reads back as a map with the same values
  pub state_round :
      (kv : Map String String) (i : ℕ) (b : Bytes)
      → c.marshal_state (record { kv = some kv; applied_index = i }) ≡ some b
      → (m : Map String String) × (c.unmarshal_state b
          ≡ some (record { kv = some m; applied_index = i }))
        × ((k : String) → lookup k m ≡ lookup k kv)
  pub state_bytes : (s : StateMachineSnapshot) → c.marshal_state s ≢ some []
  pub command_round :
      (m : Command) (b : Bytes)
      → c.marshal_command m ≡ some b
      → (c.unmarshal_command b ≡ some m) × (b ≢ [])
  pub zero_hard_empty : c.is_empty_hard zero_hard ≡ true
  pub empty_hard_zero : (h : HardState) → c.is_empty_hard h ≡ true → h ≡ zero_hard
  pub empty_snap_zero : (s : Snapshot) → (c.is_empty_snap s ≡ true) ↔ (s.index ≡ 0)
