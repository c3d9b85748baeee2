-- ===== src/RaftWal/Tests/Nodes.antt =====
-- The theorems on clusters at three nodes, one of them stopped.
use go_by_example.Prelude.{
  ℕ, ◌≡◌, ◌≢◌, ◌≤◌, ◌↔◌, ◌⊎◌, refl, Bool, true, false, some, List, [], ◌∷◌, ok, err,
  comparable_number, ◌*◌, lookup, Distinct,
}
use go_by_example.Prelude.Sorting.{sort}
use go_by_example.RaftWal.Messages.{Entry}
use go_by_example.RaftWal.Node.{RaftNode}
use go_by_example.RaftWal.Disk.History.{fresh}
use go_by_example.RaftWal.Tests.Toy.{values}
use go_by_example.RaftWal.Cluster.{
  Cluster, Round, Transport, active_node_ids, choose_follower, no_follower, wait_value,
}
use go_by_example.RaftWal.Cluster.Active.{IsActive}
use go_by_example.RaftWal.Cluster.Members.{choose_follower_lem, wait_value_iff, Reached}

abbrev member : ℕ → Bool → RaftNode (List Entry) ℕ
member id stopped = record {
  id = id;
  node = id;
  storage = [];
  disk = fresh;
  kv = values;
  applied_index = 5;
  stopped = stopped;
  conf_state = record { voters = 1 ∷ 2 ∷ 3 ∷ [] };
  last_snapshot_index = 5;
  snapshot_every = 5;
  snapshot_catch_up = 2;
}

abbrev three : Cluster (List Entry) ℕ
three = (3, member 3 false) ∷ (1, member 1 false) ∷ (2, member 2 true) ∷ []

abbrev turned : Cluster (List Entry) ℕ
turned = (1, member 1 false) ∷ (3, member 3 false) ∷ (2, member 2 true) ∷ []

abbrev counting : Transport ℕ ℕ
counting = record {
  target = λ m. m;
  step = λ m n. some (n * 10);
  propose = λ b n. some n;
  is_leader = λ n. true;
}

active_run : active_node_ids three ≡ 1 ∷ 3 ∷ []
unfolding active_node_ids sort
active_run = refl

three-Distinct : Distinct three
unfolding lookup
three-Distinct = (refl, (refl, (refl, tt)))

choose_follower_lem_example :
    ((id : ℕ) × (choose_follower 1 three ≡ ok id)
      × (id ≢ 1)
      × IsActive three id
      × ((j : ℕ) → IsActive three j → (j ≡ 1) ⊎ (id ≤ j)))
    ⊎ ((choose_follower 1 three ≡ err no_follower) × ((j : ℕ) → IsActive three j → j ≡ 1))
choose_follower_lem_example = choose_follower_lem 1 three three-Distinct

-- the third node is stopped after the round has asked which are active
abbrev round : Round (List Entry) ℕ
round = record {
  asked = three;
  read = (3, member 3 true) ∷ (1, member 1 false) ∷ (2, member 2 true) ∷ [];
}

wait_value_iff_example : (wait_value "x" "10" (round ∷ []) ≡ ok tt) ↔ Reached "x" "10" (round ∷ [])
wait_value_iff_example = wait_value_iff "x" "10" (round ∷ []) (three-Distinct, tt)
