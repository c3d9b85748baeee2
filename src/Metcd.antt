-- ===== src/Metcd.antt =====
-- raftNode of etcd/metcd/raft.go: its start, the goroutine that takes proposals, and the loop of
-- serveChannels. What etcd's raft, wal, snap and rafthttp do is a parameter with states `X`; `C` is a
-- configuration change, `E` an entry, `T` a hard state and `P` a snapshot. A send to commitC is
-- received at once, and log.Fatalf is `fatal`.
pub mod Published
pub mod Serving
mod Tests
use go_by_example.Prelude.{
  ℕ, ◌+◌, Bool, true, false, not, ◌&&◌, Option, none, some, List, [], ◌∷◌, ◌++◌, String,
  if◌then◌else◌, leb, Result, ok, err, ◌>>=◌, ◌||◌,
}

pub record Lib (X C E T P : Type 0) : Type 0 where
  pub mkdir : X → X × Bool
  pub wal_exists : X → Bool
  pub wal_create : X → X × Bool
  pub valid_snapshots : X → Option (List ℕ)
  pub load_newest : List ℕ → X → Option (Option P)
  pub wal_open : ℕ → ℕ → X → X × Bool
  pub read_all : X → Option (T × List E)
  pub empty_snap : P
  pub is_empty_snap : P → Bool
  pub index : P → ℕ
  pub term : P → ℕ
  pub new_storage : X → X
  pub apply_snapshot : P → X → X
  pub set_hard_state : T → X → X
  pub append : List E → X → X
  pub storage_index : X → Option ℕ
  pub propose : String → X → X
  pub propose_conf_change : ℕ → C → X → X
  pub tick : X → X
  pub save_snap : P → X → X × Bool
  pub wal_save_snapshot : P → X → X × Bool
  pub release_lock_to : ℕ → X → X × Bool
  pub wal_save : T → List E → X → X
  pub stop_transport : X → X
  pub stop_node : X → X

-- `propose_c` and `conf_change_c` say that the channel is not nil; `commits` is what was sent to
-- commitC, where `none` is nil.
pub record RaftNode : Type 0 where
  pub propose_c : Bool
  pub conf_change_c : Bool
  pub commits : List (Option (List String))
  pub conf_change_count : ℕ
  pub stopc_closed : Bool
  pub http_stopc_closed : Bool
  pub commit_closed : Bool
  pub error_closed : Bool
  pub snapshot_index : ℕ
  pub applied_index : ℕ
  pub returned : Bool
  pub fatal : Bool

-- The fields that the composite literal of newRaftNode leaves out are nil; confChangeC is one.
unfoldable pub new_raft_node : RaftNode
new_raft_node = record {
  propose_c = true;
  conf_change_c = false;
  commits = [];
  conf_change_count = 0;
  stopc_closed = false;
  http_stopc_closed = false;
  commit_closed = false;
  error_closed = false;
  snapshot_index = 0;
  applied_index = 0;
  returned = false;
  fatal = false;
}

pub data StartError : Type 0 where
  cannot_list cannot_load cannot_make_dir cannot_create cannot_open cannot_read : StartError

pub record Ready (E T P : Type 0) : Type 0 where
  pub hard_state : T
  pub entries : List E
  pub snapshot : P
  pub committed : List E

-- what the goroutine in serveChannels receives
pub data Input (C : Type 0) : Type 0 where
  proposal : String → Input C
  conf_change : C → Input C
  proposals_closed conf_changes_closed : Input C

-- an input is taken while the loop's test holds, `leave` is the end of the goroutine
pub data Event (C E T P : Type 0) : Type 0 where
  input : Input C → Event C E T P
  leave ticker stopped : Event C E T P
  ready : Ready E T P → Event C E T P

module _ {X C E T P : Type 0} (etcd : Lib X C E T P) where
  abbrev pub loaded : Option (List ℕ) → X → Result StartError (Option P)
  loaded none x = err cannot_list
  loaded (some walsnaps) x = elim (etcd.load_newest walsnaps x) [
    | none ↦ err cannot_load
    | some snapshot ↦ ok snapshot
  ]

  unfoldable pub load_snapshot : X → Result StartError (Option P)
  load_snapshot x =
      if etcd.wal_exists x then loaded (etcd.valid_snapshots x) x else ok (some etcd.empty_snap)

  abbrev pub created : X × Bool → Result StartError X
  created (x, done) = if done then ok x else err cannot_create

  abbrev pub made_dir : X × Bool → Result StartError X
  made_dir (x, done) = if done then created (etcd.wal_create x) else err cannot_make_dir

  abbrev pub opened : X × Bool → Result StartError X
  opened (x, done) = if done then ok x else err cannot_open

  abbrev pub open_at : Option P → X → X × Bool
  open_at none x = etcd.wal_open 0 0 x
  open_at (some p) x = etcd.wal_open (etcd.index p) (etcd.term p) x

  unfoldable pub open_wal : Option P → X → Result StartError X
  open_wal snapshot x = (if etcd.wal_exists x then ok x else made_dir (etcd.mkdir x)) >>= λ y.
      opened (open_at snapshot y)

  abbrev pub apply_loaded : Option P → X → X
  apply_loaded none x = x
  apply_loaded (some p) x = etcd.apply_snapshot p x

  abbrev pub filled : Option P → X → Option (T × List E) → Result StartError X
  filled snapshot x none = err cannot_read
  filled snapshot x (some (hard, entries)) =
      ok (
        etcd.append entries (etcd.set_hard_state hard (apply_loaded snapshot (etcd.new_storage x))))

  unfoldable pub replay_wal : X → Result StartError X
  unfolding load_snapshot open_wal
  replay_wal x = load_snapshot x >>= λ snapshot.
      open_wal snapshot x >>= λ y. filled snapshot y (etcd.read_all y)

  -- a select of the goroutine, in its loop
  unfoldable pub take_input : Input C → RaftNode → X → RaftNode × X
  take_input (proposal prop) n x = (n, etcd.propose prop x)
  take_input (conf_change c) n x =
      let count = n.conf_change_count + 1 in
      (record n { conf_change_count = count }, etcd.propose_conf_change count c x)
  take_input proposals_closed n x = (record n { propose_c = false }, x)
  take_input conf_changes_closed n x = (record n { conf_change_c = false }, x)

  abbrev pub and_then : X × Bool → (X → X × Bool) → X × Bool
  and_then (x, true) f = f x
  and_then (x, false) f = (x, false)

  unfoldable pub save_snap : P → X → X × Bool
  save_snap p x =
      and_then (etcd.save_snap p x)
        λ y. and_then (etcd.wal_save_snapshot p y) λ z. etcd.release_lock_to (etcd.index p) z

  unfoldable pub publish_snapshot : P → RaftNode → RaftNode
  publish_snapshot p n =
      if etcd.is_empty_snap p
      then n
      else if leb (etcd.index p) n.snapshot_index
      then record n { fatal = true }
      else record n {
        commits = n.commits ++ none ∷ [];
        snapshot_index = etcd.index p;
        applied_index = etcd.index p;
      }

  -- the Ready case of serveChannels; the result of saveSnap is dropped
  unfoldable pub handle_ready : Ready E T P → RaftNode → X → RaftNode × X
  unfolding save_snap publish_snapshot
  handle_ready rd n x =
      let saved = if etcd.is_empty_snap rd.snapshot then x else (save_snap rd.snapshot x).0 in
      let logged = etcd.wal_save rd.hard_state rd.entries saved in
      if etcd.is_empty_snap rd.snapshot
      then (n, logged)
      else (publish_snapshot rd.snapshot n, etcd.apply_snapshot rd.snapshot logged)

  unfoldable pub stop : RaftNode → X → RaftNode × X
  stop n x = (
    record n {
      http_stopc_closed = true;
      commit_closed = true;
      error_closed = true;
      returned = true;
    },
    etcd.stop_node (etcd.stop_transport x),
  )

  abbrev pub begun : RaftNode → Option ℕ → RaftNode
  begun n none = record n { fatal = true }
  begun n (some i) = record n { snapshot_index = i; applied_index = i }

  -- serveChannels before its goroutine starts
  unfoldable pub begin_serving : RaftNode → X → RaftNode
  begin_serving n x = begun n (etcd.storage_index x)

  abbrev pub when : Bool → RaftNode × X → Option (RaftNode × X)
  when test r = if test then some r else none

  -- the goroutine has not ended, and neither has the process
  abbrev pub can_take : RaftNode → Bool
  can_take n = not n.stopc_closed && not n.fatal

  abbrev pub serves : RaftNode → Bool
  serves n = not n.returned && not n.fatal

  unfoldable pub step : Event C E T P → RaftNode → X → Option (RaftNode × X)
  unfolding take_input handle_ready stop
  step (input i) n x = when (can_take n && (n.propose_c && n.conf_change_c)) (take_input i n x)
  step leave n x =
      when (can_take n && not (n.propose_c && n.conf_change_c))
        (record n { stopc_closed = true }, x)
  step ticker n x = when (serves n) (n, etcd.tick x)
  step (ready rd) n x = when (serves n) (handle_ready rd n x)
  step stopped n x = when (n.stopc_closed && serves n) (stop n x)

  abbrev pub then_steps :
      Option (RaftNode × X) → (RaftNode → X → Option (RaftNode × X)) → Option (RaftNode × X)
  then_steps none f = none
  then_steps (some (n, x)) f = f n x

  -- an execution, if each of its events could happen
  unfoldable pub steps : List (Event C E T P) → RaftNode → X → Option (RaftNode × X)
  steps [] n x = some (n, x)
  steps (e ∷ es) n x = then_steps (step e n x) (steps es)
