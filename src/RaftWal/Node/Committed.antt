-- ===== src/RaftWal/Node/Committed.antt =====
-- What applyCommitted does to the values and the applied index.
use go_by_example.Prelude.{
  ℕ, ◌≡◌, refl, ◌∙◌, ap, Option, none, some, List, [], ◌∷◌, String, if◌then◌else◌, lookup,
  lookup-insert, comparable_string, ◌==◌, arith,
}
use go_by_example.RaftWal.Base64.{Bytes}
use go_by_example.RaftWal.Messages.{
  Codec, Command, Entry, EntryType, entry_normal, entry_conf_change, entry_conf_change_v2,
  ConfState,
}
use go_by_example.RaftWal.Disk.{Os}
use go_by_example.RaftWal.Node.{RaftLib, RaftNode}
use go_by_example.RaftWal.Node.Snapshots.{maybe_snapshot-Keeps}
use go_by_example.RaftWal.Node.Apply.{
  apply_entries, apply_committed, changed, apply_change, apply_command, apply_kind, apply_normal,
  apply_entry,
}

-- the command in a committed entry, if it is a normal one that decodes
unfoldable pub command_of : Codec → EntryType → Bytes → Option Command
command_of c entry_normal (b ∷ s) = c.unmarshal_command (b ∷ s)
command_of c _ _ = none

abbrev pub set_by : String → Option Command → Option String
set_by k none = none
set_by k (some m) = if m.key == k then some m.value else none

abbrev pub or_else : Option String → Option String → Option String
or_else (some v) w = some v
or_else none w = w

-- the value that the last of the entries to write `k` gives it
unfoldable pub last_write : Codec → String → List Entry → Option String
last_write c k [] = none
last_write c k (e ∷ es) = or_else (last_write c k es) (set_by k (command_of c e.kind e.payload))

abbrev pub last_index : ℕ → List Entry → ℕ
last_index i [] = i
last_index i (e ∷ es) = last_index e.index es

module _ {S H C : Type 0} (c : Codec) (raft : RaftLib S H C) where
  changed-kv : (r : H × Option ConfState) (n : RaftNode S H) → (changed c raft r n).kv ≡ n.kv
  unfolding changed
  changed-kv (node, none) n = refl
  changed-kv (node, some cs) n = refl

  apply_change-kv : (o : Option C) (n : RaftNode S H) → (apply_change c raft o n).kv ≡ n.kv
  unfolding apply_change
  apply_change-kv none n = refl
  apply_change-kv (some change) n = changed-kv (raft.apply_conf_change change n.node) n

  apply_command-lookup :
      (o : Option Command) (n : RaftNode S H) (k : String)
      → lookup k (apply_command c raft o n).kv ≡ or_else (set_by k o) (lookup k n.kv)
  unfolding apply_command
  apply_command-lookup none n k = refl
  apply_command-lookup (some m) n k = ground (arith, lookup-insert m.key k m.value n.kv)

  apply_kind-lookup :
      (t : EntryType) (b : Bytes) (n : RaftNode S H) (k : String)
      → lookup k (apply_kind c raft t b n).kv
        ≡ or_else (set_by k (command_of c t b)) (lookup k n.kv)
  unfolding apply_kind apply_normal command_of
  apply_kind-lookup entry_normal [] n k = refl
  apply_kind-lookup entry_normal (b ∷ s) n k =
      apply_command-lookup (c.unmarshal_command (b ∷ s)) n k
  apply_kind-lookup entry_conf_change b n k =
      ap (lookup k) (apply_change-kv (raft.unmarshal_conf_change b) n)
  apply_kind-lookup entry_conf_change_v2 b n k =
      ap (lookup k) (apply_change-kv (raft.unmarshal_conf_change_v2 b) n)

  pub apply_entries-lookup :
      (es : List Entry) (n : RaftNode S H) (k : String)
      → lookup k (apply_entries c raft es n).kv ≡ or_else (last_write c k es) (lookup k n.kv)
  unfolding apply_entries last_write
  apply_entries-lookup [] n k = refl
  apply_entries-lookup (e ∷ es) n k = ground (
    arith,
    apply_entries-lookup es (apply_entry c raft e n) k,
    apply_kind-lookup e.kind e.payload (record n { applied_index = e.index }) k,
  )

  -- After applyCommitted a key has the value of the last committed command that sets it, or its old
  -- value if none does, whether or not a snapshot was taken.
  pub apply_committed-lookup :
      (os : Os) (es : List Entry) (n : RaftNode S H) (k : String)
      → lookup k (apply_committed c raft os es n).kv ≡ or_else (last_write c k es) (lookup k n.kv)
  unfolding apply_committed last_write
  apply_committed-lookup os [] n k = refl
  apply_committed-lookup os (e ∷ es) n k =
      ap (lookup k) (maybe_snapshot-Keeps c raft os (apply_entries c raft (e ∷ es) n)).0
      ∙ apply_entries-lookup (e ∷ es) n k

  changed-index :
      (r : H × Option ConfState) (n : RaftNode S H)
      → (changed c raft r n).applied_index ≡ n.applied_index
  unfolding changed
  changed-index (node, none) n = refl
  changed-index (node, some cs) n = refl

  apply_change-index :
      (o : Option C) (n : RaftNode S H) → (apply_change c raft o n).applied_index ≡ n.applied_index
  unfolding apply_change
  apply_change-index none n = refl
  apply_change-index (some change) n = changed-index (raft.apply_conf_change change n.node) n

  apply_kind-index :
      (t : EntryType) (b : Bytes) (n : RaftNode S H)
      → (apply_kind c raft t b n).applied_index ≡ n.applied_index
  unfolding apply_kind apply_normal apply_command
  apply_kind-index entry_normal [] n = refl
  apply_kind-index entry_normal (b ∷ s) n = ground arith
  apply_kind-index entry_conf_change b n = apply_change-index (raft.unmarshal_conf_change b) n
  apply_kind-index entry_conf_change_v2 b n = apply_change-index (raft.unmarshal_conf_change_v2 b) n

  apply_entries-index :
      (es : List Entry) (n : RaftNode S H)
      → (apply_entries c raft es n).applied_index ≡ last_index n.applied_index es
  unfolding apply_entries
  apply_entries-index [] n = refl
  apply_entries-index (e ∷ es) n =
      apply_entries-index es (apply_entry c raft e n)
      ∙ ap (λ i. last_index i es)
          (apply_kind-index e.kind e.payload (record n { applied_index = e.index }))

  -- The applied index after applyCommitted is that of the last entry, whatever the kinds of the
  -- entries and whether or not they decode.
  pub apply_committed-index :
      (os : Os) (es : List Entry) (n : RaftNode S H)
      → (apply_committed c raft os es n).applied_index ≡ last_index n.applied_index es
  unfolding apply_committed
  apply_committed-index os [] n = refl
  apply_committed-index os (e ∷ es) n =
      (maybe_snapshot-Keeps c raft os (apply_entries c raft (e ∷ es) n)).1
      ∙ apply_entries-index (e ∷ es) n
