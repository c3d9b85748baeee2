-- ===== src/Metcd/Tests.antt =====
-- A toy library whose state is the proposals that it was handed; a snapshot is its index.
use go_by_example.Prelude.{
  ℕ, ◌≡◌, ◌⊎◌, refl, true, false, none, some, List, [], ◌∷◌, String, All, eqb,
}
use go_by_example.Metcd.{
  Lib, RaftNode, new_raft_node, Ready, proposal, Event, input, leave, ticker, ready, begin_serving,
  step, steps,
}
use go_by_example.Metcd.Published.{nils, last_index, Ascending, snapshot_indices}
use go_by_example.Metcd.Serving.{IsNoInput, first_index, takes_nothing, publishes_no_entry}

abbrev X : Type 0
X = List String

abbrev toy : Lib X ℕ ℕ ℕ ℕ
toy = record {
  mkdir = λ (x : X). (x, true);
  wal_exists = λ (x : X). false;
  wal_create = λ (x : X). (x, true);
  valid_snapshots = λ (x : X). some [];
  load_newest = λ (l : List ℕ) (x : X). some none;
  wal_open = λ (i t : ℕ) (x : X). (x, true);
  read_all = λ (x : X). some (0, []);
  empty_snap = 0;
  is_empty_snap = λ (p : ℕ). eqb p 0;
  index = λ (p : ℕ). p;
  term = λ (p : ℕ). 1;
  new_storage = λ (x : X). x;
  apply_snapshot = λ (p : ℕ) (x : X). x;
  set_hard_state = λ (t : ℕ) (x : X). x;
  append = λ (es : List ℕ) (x : X). x;
  storage_index = λ (x : X). some 0;
  propose = λ (p : String) (x : X). p ∷ x;
  propose_conf_change = λ (i c : ℕ) (x : X). x;
  tick = λ (x : X). x;
  save_snap = λ (p : ℕ) (x : X). (x, true);
  wal_save_snapshot = λ (p : ℕ) (x : X). (x, true);
  release_lock_to = λ (i : ℕ) (x : X). (x, true);
  wal_save = λ (t : ℕ) (es : List ℕ) (x : X). x;
  stop_transport = λ (x : X). x;
  stop_node = λ (x : X). x;
}

abbrev batch : Ready ℕ ℕ ℕ
batch = record { hard_state = 1; entries = 5 ∷ []; snapshot = 3; committed = 5 ∷ [] }

abbrev events : List (Event ℕ ℕ ℕ ℕ)
events = ticker ∷ ready batch ∷ leave ∷ []

abbrev last : RaftNode
last = record {
  propose_c = true;
  conf_change_c = false;
  commits = none ∷ [];
  conf_change_count = 0;
  stopc_closed = true;
  http_stopc_closed = false;
  commit_closed = false;
  error_closed = false;
  snapshot_index = 3;
  applied_index = 3;
  returned = false;
  fatal = false;
}

reached : steps toy events (begin_serving toy new_raft_node []) [] ≡ some (last, [])
unfolding steps step begin_serving new_raft_node
reached = refl

-- a node with both channels hands a proposal on
with_channel :
    step toy (input (proposal "x")) (record last { conf_change_c = true; stopc_closed = false }) []
    ≡ some (record last { conf_change_c = true; stopc_closed = false }, "x" ∷ [])
unfolding step
with_channel = refl

takes_nothing_example :
    All IsNoInput events
    × (last.fatal ≡ false
        → (last.stopc_closed ≡ true)
          ⊎ ((m : RaftNode) × (step toy leave last [] ≡ some (m, [])) × (m.stopc_closed ≡ true)))
takes_nothing_example = takes_nothing toy events last [] [] reached

publishes_no_entry_example :
    All (λ c. c ≡ none) last.commits
    × (last.applied_index ≡ last.snapshot_index)
    × (last.fatal ≡ false
        → (last.commits ≡ nils (snapshot_indices toy events))
          × (last.snapshot_index
              ≡ last_index (first_index (toy.storage_index [])) (snapshot_indices toy events))
          × Ascending (first_index (toy.storage_index [])) (snapshot_indices toy events))
publishes_no_entry_example = publishes_no_entry toy events last [] [] reached
