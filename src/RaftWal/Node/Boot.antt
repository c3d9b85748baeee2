-- ===== src/RaftWal/Node/Boot.antt =====
-- newRaftNode: booting from disk.
use go_by_example.Prelude.{
  ℕ, Bool, true, false, Option, none, some, List, [], ◌∷◌, Result, ok, err, ◌>>=◌, or_fail,
  if◌then◌else◌, ltb, eqb, comparable_string, bind_ok, arith, ◌≡◌, ◌≢◌, Map, String, refl,
}
use go_by_example.RaftWal.Base64.{Bytes}
use go_by_example.RaftWal.Messages.{HardState, Entry, Snapshot, BootState, Codec}
use go_by_example.RaftWal.Disk.{Disk, Os, save_snapshot, append_wal, load}
use go_by_example.RaftWal.Disk
use go_by_example.RaftWal.Node.{
  RaftLib, RaftNode, BootError, load_failed, apply_failed, restore_failed, append_failed, peer_ids,
  map_or_empty,
}

module _ {S H C : Type 0} (c : Codec) (raft : RaftLib S H C) where
  -- restoreStateMachineFromSnapshot, which leaves the node alone when it fails
  unfoldable pub restore : Bytes → RaftNode S H → Option (RaftNode S H)
  restore [] n = some n
  restore (b ∷ s) n = elim (c.unmarshal_state (b ∷ s)) [
    | none ↦ none
    | some snap ↦ some (record n {
      kv = map_or_empty snap.kv;
      applied_index = if ltb 0 snap.applied_index then snap.applied_index else n.applied_index;
    })
  ]

  -- newRaftNode, up to the call of `load`
  unfoldable pub fresh_node : ℕ → Disk → RaftNode S H
  fresh_node id d = record {
    id = id;
    node = raft.restart_node id 0 raft.new_storage;
    storage = raft.new_storage;
    disk = d;
    kv = [];
    applied_index = 0;
    stopped = false;
    conf_state = record { voters = [] };
    last_snapshot_index = 0;
    snapshot_every = 5;
    snapshot_catch_up = 2;
  }

  unfoldable pub boot_snapshot : Snapshot → RaftNode S H → Result BootError (RaftNode S H)
  unfolding restore
  boot_snapshot s n = if c.is_empty_snap s then ok n else do
    storage ← or_fail (raft.apply_snapshot s n.storage) apply_failed
    m ← or_fail (restore s.payload (record n { storage = storage })) restore_failed
    ok (record m {
      last_snapshot_index = s.index;
      conf_state = s.conf_state;
      applied_index = if eqb m.applied_index 0 then s.index else m.applied_index;
    })

  unfoldable pub boot_entries : List Entry → RaftNode S H → Result BootError (RaftNode S H)
  boot_entries [] n = ok n
  boot_entries (e ∷ es) n = do
    storage ← or_fail (raft.append (e ∷ es) n.storage) append_failed
    ok (record n { storage = storage })

  unfoldable pub boot_hard : HardState → RaftNode S H → RaftNode S H
  boot_hard h n =
      if c.is_empty_hard h then n else record n { storage = raft.set_hard_state h n.storage }

  unfoldable pub start : Bool → List ℕ → RaftNode S H → RaftNode S H
  start true peers n = record n { node = raft.restart_node n.id n.applied_index n.storage }
  start false peers n = record n {
    node = raft.start_node n.id peers n.storage;
    conf_state = record { voters = peer_ids peers };
  }

  unfoldable pub boot : ℕ → List ℕ → Disk → BootState → Result BootError (RaftNode S H)
  unfolding boot_snapshot boot_entries boot_hard start fresh_node
  boot id peers d state = do
    n ← boot_snapshot state.snapshot (fresh_node id d)
    m ← boot_entries state.entries n
    ok (start state.has_state peers (boot_hard state.hard m))

  unfoldable pub load_error : Result Disk.Error BootState → Result BootError BootState
  load_error (ok state) = ok state
  load_error (err e) = err (load_failed e)

  unfoldable pub new_raft_node : Os → ℕ → List ℕ → Disk → Disk × Result BootError (RaftNode S H)
  unfolding load_error boot
  new_raft_node os id peers d =
      let (d', loaded) = load c os d in (d', load_error loaded >>= boot id peers d')

  -- the parts of the node that the later steps of booting leave alone
  abbrev pub Keeps : RaftNode S H → RaftNode S H → Type 0
  Keeps n m = (m.kv ≡ n.kv) × (m.applied_index ≡ n.applied_index)

  pub boot_entries-Keeps :
      (es : List Entry) (n m : RaftNode S H) → boot_entries es n ≡ ok m → Keeps n m
  unfolding boot_entries
  boot_entries-Keeps [] n m h = ground arith
  boot_entries-Keeps (e ∷ es) n m h =
      let (storage, _, rest) =
        bind_ok (or_fail (raft.append (e ∷ es) n.storage) append_failed) _ m h in
      ground (arith, rest)

  pub start-Keeps :
      (old : Bool) (peers : List ℕ) (h : HardState) (n : RaftNode S H)
      → Keeps n (start old peers (boot_hard h n))
  unfolding start boot_hard
  start-Keeps true peers h n = ground arith
  start-Keeps false peers h n = ground arith

  restore_lem :
      (b : Bytes) (n : RaftNode S H) (kv : Map String String) (i : ℕ)
      → b ≢ []
      → c.unmarshal_state b ≡ some (record { kv = some kv; applied_index = i })
      → i ≢ 0
      → restore b n ≡ some (record n { kv = kv; applied_index = i })
  unfolding restore
  restore_lem [] n kv i text e pos = absurd (text refl)
  restore_lem (x ∷ b) n kv i text e pos = ground arith

  -- Restoring from a snapshot that decodes.
  pub boot_snapshot-restores :
      (s : Snapshot) (n m : RaftNode S H) (kv : Map String String) (i : ℕ)
      → c.is_empty_snap s ≡ false
      → s.payload ≢ []
      → c.unmarshal_state s.payload ≡ some (record { kv = some kv; applied_index = i })
      → i ≢ 0
      → boot_snapshot s n ≡ ok m
      → (m.kv ≡ kv) × (m.applied_index ≡ i)
  unfolding boot_snapshot
  boot_snapshot-restores s n m kv i full text e pos h =
      let (storage, _, h') =
        bind_ok (or_fail (raft.apply_snapshot s n.storage) apply_failed) _ m (rw full at h) in
      let n' = record n { storage = storage } in
      let (r, p, q) = bind_ok (or_fail (restore s.payload n') restore_failed) _ m h' in
      ground (arith, q, p, restore_lem s.payload n' kv i text e pos)

  pub load_error_ok :
      (r : Result Disk.Error BootState) (state : BootState) → load_error r ≡ ok state → r ≡ ok state
  unfolding load_error
  load_error_ok (ok a) state h = ground arith
  load_error_ok (err e) state h = ground arith
