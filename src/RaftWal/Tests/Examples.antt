-- ===== src/RaftWal/Tests/Examples.antt =====
-- The theorems of the component at a small run.
use go_by_example.RaftWal.Disk.SnapshotFile.{save_snapshot_atomic}
use go_by_example.RaftWal.Cluster.{Cluster, Transport}
use go_by_example.RaftWal.Cluster.Readiness.{handle_ready, handle_ready-lookup}
use go_by_example.RaftWal.Node.Loop.{persist_ready}
use go_by_example.RaftWal.Disk.Lines.{scan, trim}
use go_by_example.Prelude.{
  ℕ, suc, ◌≡◌, ◌≢◌, ◌≤◌, ◌+◌, refl, true, false, none, some, List, [], ◌∷◌, String, ok, err, lookup,
  comparable_string, comparable_number, arith, ◌⊎◌,
}
use go_by_example.RaftWal.Base64
use go_by_example.RaftWal.Base64.{Bytes}
use go_by_example.RaftWal.Messages.{Entry, zero_snapshot}
use go_by_example.RaftWal.Disk.{Disk, Os, healthy, append_wal, save_snapshot, load, Error}
use go_by_example.RaftWal.Disk.History.{
  Event, appended, saved, Runs, done, append, save, fresh, recovered,
}
use go_by_example.RaftWal.Disk.Reload.{reload}
use go_by_example.RaftWal.Node.{RaftNode, Ready}
use go_by_example.RaftWal.Node.Boot.{new_raft_node}
use go_by_example.RaftWal.Node.Apply.{apply_committed}
use go_by_example.RaftWal.Node.Snapshots.{maybe_snapshot, snapshot_data}
use go_by_example.RaftWal.Node.Recovery.{
  snapshot_survives, maybe_snapshot_due, maybe_snapshot_taken,
}
use go_by_example.RaftWal.Node.Committed.{apply_committed-lookup, or_else, last_write, command_of}
use go_by_example.RaftWal.Tests.Toy.{
  toy, toy_laws, toy_raft, toy_raft_laws, hard, entry, snapshot, values,
}

abbrev log : List Event
log = appended hard (entry ∷ []) ∷ saved snapshot ∷ []

abbrev line : Bytes
line = b'{' ∷ 49 ∷ b'}' ∷ 10 ∷ []

abbrev written : Disk
written = record { dir = true; wal = some line; snap = none; tmp = none }

abbrev complete : Disk
complete = record { dir = true; wal = some line; snap = some (5 ∷ 9 ∷ []); tmp = none }

log-Runs : Runs toy complete fresh log
unfolding append_wal save_snapshot Base64.encode
log-Runs = append {d' = written} healthy refl (save {d' = complete} healthy refl done)

scan_short : (scan line).too_long ≡ false
unfolding scan
scan_short = refl

reload_example : (load toy healthy complete).1 ≡ ok (recovered toy log)
reload_example = reload toy toy_laws log healthy log-Runs refl refl refl scan_short

-- applied up to index 5, with no snapshot yet
abbrev node : RaftNode (List Entry) ℕ
node = record {
  id = 1;
  node = 5;
  storage = [];
  disk = fresh;
  kv = values;
  applied_index = 5;
  stopped = false;
  conf_state = record { voters = [] };
  last_snapshot_index = 0;
  snapshot_every = 5;
  snapshot_catch_up = 2;
}

with_snapshot : Disk
with_snapshot = record { dir = true; wal = none; snap = some (5 ∷ 9 ∷ []); tmp = none }

moved : (maybe_snapshot toy toy_raft healthy node).last_snapshot_index ≢ node.last_snapshot_index
unfolding maybe_snapshot save_snapshot
moved e = cc

booted : RaftNode (List Entry) ℕ
booted = record node {
  disk = record { dir = true; wal = none; snap = some (5 ∷ 9 ∷ []); tmp = none };
  last_snapshot_index = 5;
}

boots :
    (new_raft_node toy toy_raft healthy 1
      (1 ∷ [])
      (maybe_snapshot toy toy_raft healthy node).disk).1
    ≡ ok booted
unfolding maybe_snapshot save_snapshot new_raft_node load booted
boots = refl

snapshot_survives_example :
    (booted.applied_index ≡ 5) × ((k : String) → lookup k booted.kv ≡ lookup k values)
snapshot_survives_example =
    snapshot_survives toy toy_raft toy_laws toy_raft_laws healthy healthy 1 (1 ∷ []) node booted
      moved boots

maybe_snapshot_due_example :
    (0 + 5 ≤ node.applied_index)
    × ((maybe_snapshot toy toy_raft healthy node).last_snapshot_index ≡ 5)
maybe_snapshot_due_example =
    maybe_snapshot_due toy toy_raft toy_laws toy_raft_laws healthy node moved

maybe_snapshot_taken_example :
    ((maybe_snapshot toy toy_raft healthy node).last_snapshot_index ≡ 5)
    × ((maybe_snapshot toy toy_raft healthy node).disk ≡ booted.disk)
unfolding save_snapshot booted snapshot_data
maybe_snapshot_taken_example =
    maybe_snapshot_taken toy toy_raft toy_laws toy_raft_laws healthy node (9 ∷ []) snapshot []
      booted.disk (omega arith) (omega arith) refl refl refl

abbrev blank : RaftNode (List Entry) ℕ
blank = record node { kv = []; applied_index = 0 }

apply_committed-lookup_example :
    lookup "x" (apply_committed toy toy_raft healthy (entry ∷ []) blank).kv
    ≡ or_else (last_write toy "x" (entry ∷ [])) none
unfolding lookup
apply_committed-lookup_example = apply_committed-lookup toy toy_raft healthy (entry ∷ []) blank "x"

-- the command of the entry is the write
last_write_run : last_write toy "x" (entry ∷ []) ≡ some "10"
unfolding last_write command_of
last_write_run = refl

-- a disk that refuses every call
abbrev broken : Os
broken = record {
  mkdir = false;
  opens = false;
  writes = false;
  renames = false;
  reads_snap = false;
  reads_wal = false;
  written = 0;
}

abbrev ready : Ready ℕ
ready = record {
  snapshot = zero_snapshot;
  hard_state = hard;
  entries = entry ∷ [];
  messages = 1 ∷ 2 ∷ [];
  committed = entry ∷ [];
}

-- a step of raft counts, and a message is the node that it is for
abbrev counting : Transport ℕ ℕ
counting = record {
  target = λ m. m;
  step = λ m n. some (suc n);
  propose = λ b n. some n;
  is_leader = λ n. true;
}

abbrev single : Cluster (List Entry) ℕ
single = (1, blank) ∷ []

single_there : lookup 1 single ≡ some blank
unfolding lookup
single_there = refl

handle_ready-lookup_example :
    (m : RaftNode (List Entry) ℕ) × (lookup 1
        (handle_ready toy toy_raft counting broken broken broken 1 ready single)
      ≡ some m)
    × (lookup "x" m.kv ≡ or_else (last_write toy "x" (entry ∷ [])) (lookup "x" blank.kv))
handle_ready-lookup_example =
    handle_ready-lookup toy toy_raft counting broken broken broken 1 ready single blank "x"
      single_there refl

-- nothing of that was written
ready_lost : (persist_ready toy toy_raft broken broken ready fresh).0 ≡ fresh
unfolding persist_ready save_snapshot append_wal
ready_lost = refl

-- an "A", and then a blank and a byte that is no text, stay
trim_run :
    trim (32 ∷ 194 ∷ 133 ∷ 226 ∷ 128 ∷ 168 ∷ 65 ∷ 32 ∷ 133 ∷ 227 ∷ 128 ∷ 128 ∷ 9 ∷ 194 ∷ 160 ∷ [])
    ≡ 65 ∷ 32 ∷ 133 ∷ []
unfolding trim
trim_run = refl

save_snapshot_atomic_example :
    let (d, r) = save_snapshot toy broken complete snapshot in
    (d.wal ≡ complete.wal)
    × (((r ≡ ok tt)
          × (toy.is_empty_snap snapshot ≡ false)
          × ((raw : Bytes) × (toy.marshal_snapshot snapshot ≡ some raw) × (d.snap ≡ some raw)))
        ⊎ ((r ≡ ok tt) × (toy.is_empty_snap snapshot ≡ true) × (d.snap ≡ complete.snap))
        ⊎ ((e : Error) × (r ≡ err e) × (d.snap ≡ complete.snap)))
save_snapshot_atomic_example = save_snapshot_atomic toy broken complete snapshot
