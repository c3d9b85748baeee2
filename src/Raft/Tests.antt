-- ===== src/Raft/Tests.antt =====
-- A toy library, and a cluster of two nodes of which one applies a command.
use go_by_example.Prelude.{
  ℕ, ◌+◌, ◌≡◌, refl, true, false, none, some, List, [], ◌∷◌, take, length, lookup, insert,
  comparable_number, comparable_string, arith,
}
use go_by_example.Raft.{
  Command, Entry, entry_normal, entry_conf_change, Ready, RaftLib, RaftNode, new_node, set_command,
  apply_normal, apply_change, apply_kind, apply_committed, store_snapshot, store_hard, store_ready,
}
use go_by_example.Raft.Cluster.{
  new_cluster, start_nodes, receive, deliver, finish_ready, ready_branch, tick_branch,
}
use go_by_example.Raft.Events.{Event, tick, ready, happen, run_events, handed_now, handed, replay}
use go_by_example.Raft.Replicas.{Numbered, replica_lem}

-- the storage is a number of entries, the node a number of calls, a message its target
abbrev toy : RaftLib ℕ ℕ ℕ ℕ ℕ ℕ
toy = record {
  new_storage = 0;
  start_node = λ (id : ℕ) (peers : List ℕ) (s : ℕ). 0;
  tick = λ (h : ℕ). h + 1;
  advance = λ (h : ℕ). h + 1;
  stop = λ (h : ℕ). h;
  target = λ (m : ℕ). m;
  step = λ (m h : ℕ). some (h + 1);
  propose = λ (b : List ℕ) (h : ℕ). some (h + 1);
  is_leader = λ (h : ℕ). false;
  is_empty_snap = λ (p : ℕ). true;
  apply_snapshot = λ (p s : ℕ). some s;
  is_empty_hard = λ (t : ℕ). true;
  set_hard_state = λ (t s : ℕ). s;
  append = λ (es : List Entry) (s : ℕ). some (s + length es);
  unmarshal_conf_change = λ (b : List ℕ). none;
  apply_conf_change = λ (c h : ℕ). h;
  unmarshal_command = λ (b : List ℕ). some (record { key = "x"; value = "10" });
  marshal_command = λ (c : Command). some (1 ∷ []);
}

abbrev log : List Entry
log =
    record { index = 1; kind = entry_conf_change; payload = 7 ∷ [] }
    ∷ record { index = 2; kind = entry_normal; payload = 1 ∷ [] }
    ∷ record { index = 3; kind = entry_normal; payload = [] }
    ∷ []

abbrev batch : Ready ℕ ℕ ℕ
batch = record {
  snapshot = 0;
  hard_state = 0;
  entries = [];
  messages = 1 ∷ 5 ∷ [];
  committed = take 2 log;
}

abbrev events : List (Event ℕ ℕ ℕ)
events = tick 1 ∷ ready 2 batch ∷ []

abbrev replica : RaftNode ℕ ℕ
replica = record {
  id = 2;
  node = 1;
  storage = 0;
  kv = ("x", "10") ∷ [];
  applied_index = 2;
  stopped = false;
  done = false;
}

log-Numbered : Numbered 1 log
log-Numbered = (refl, (refl, (refl, tt)))

handed_two : handed toy 2 events (new_cluster toy (1 ∷ 2 ∷ [])) ≡ take 2 log
unfolding handed handed_now happen new_cluster start_nodes new_node tick_branch ready_branch lookup
    insert
handed_two = refl

reached : lookup 2 (run_events toy events (new_cluster toy (1 ∷ 2 ∷ []))) ≡ some replica
unfolding run_events happen new_cluster start_nodes new_node tick_branch ready_branch lookup insert
    receive deliver finish_ready set_command apply_normal apply_change apply_kind apply_committed
    store_snapshot store_hard store_ready
reached = refl

replica_lem_example :
    (replica.applied_index ≡ 2) × (replica.kv ≡ replay toy (take replica.applied_index log) [])
replica_lem_example =
    replica_lem toy log (1 ∷ 2 ∷ []) events 2 2 replica log-Numbered (omega arith) handed_two
      reached
