-- ===== src/RaftWal/Cluster.antt =====
-- cluster of etcd/raft-wal-restart/main.go: starting, delivering messages, stopping nodes, and the
-- polls that wait for a leader or a value. A poll loop runs over the rounds until its deadline. The
-- goroutines of the nodes go on meanwhile: a cluster that is read has each node as it is when it is
-- read, and a round reads every node twice.
pub mod Active
pub mod Members
pub mod Readiness
use go_by_example.RaftWal.Disk.History.{fresh}
use go_by_example.Prelude.{
  ℕ, ◌≡◌, Bool, true, false, not, ◌&&◌, ◌||◌, Option, none, some, List, [], ◌∷◌, String, Result, ok,
  err, ◌>>=◌, or_fail, if◌then◌else◌, ◌==◌, eqb, Map, lookup, insert, comparable_number,
  comparable_string, keep,
}
use go_by_example.Prelude.Sorting.{sort}
use go_by_example.RaftWal.Base64.{Bytes}
use go_by_example.RaftWal.Messages.{Codec, Command}
use go_by_example.RaftWal.Disk.{Disk, Os}
use go_by_example.RaftWal.Node.{RaftLib, RaftNode, BootError}
use go_by_example.RaftWal.Node.Boot.{new_raft_node}

abbrev pub Cluster : Type 0 → Type 0 → Type 0
Cluster S H = Map ℕ (RaftNode S H)

-- a round of a poll: the nodes as activeNodeIDs finds them, and then as the loop over their ids does
pub record Round (S H : Type 0) : Type 0 where
  pub asked : Cluster S H
  pub read : Cluster S H

pub data ClusterError : Type 0 where
  boot_error : ℕ → BootError → ClusterError
  node_not_found leader_not_found leader_stopped no_follower : ClusterError
  election_timeout not_converged marshal_failed propose_failed : ClusterError

-- What the code calls of the raft node `H` with messages `M`.
pub record Transport (H M : Type 0) : Type 0 where
  pub target : M → ℕ
  pub step : M → H → Option H
  pub propose : Bytes → H → Option H
  pub is_leader : H → Bool

first_other : ℕ → List ℕ → Option ℕ
first_other leader [] = none
first_other leader (id ∷ ids) =
    let rest = first_other leader ids in if eqb id leader then rest else some id

module _ {S H : Type 0} where
  -- stop, which does nothing to a node that is stopped
  unfoldable pub stop : RaftNode S H → RaftNode S H
  stop n = if n.stopped then n else record n { stopped = true }

  unfoldable pub stop_all : Cluster S H → Cluster S H
  unfolding stop
  stop_all [] = []
  stop_all ((id, n) ∷ ns) = (id, stop n) ∷ stop_all ns

  stop_found : ℕ → Option (RaftNode S H) → Cluster S H → Result ClusterError (Cluster S H)
  unfolding stop
  stop_found id none c = err node_not_found
  stop_found id (some n) c = ok (insert id (stop n) c)

  unfoldable pub stop_node : ℕ → Cluster S H → Result ClusterError (Cluster S H)
  unfolding stop_found
  stop_node id c = stop_found id (lookup id c) c

  running : Cluster S H → List ℕ
  running [] = []
  running ((id, n) ∷ ns) = let rest = running ns in if n.stopped then rest else id ∷ rest

  unfoldable pub active_node_ids : Cluster S H → List ℕ
  unfolding running
  active_node_ids c = sort (λ i. i) (running c)

  unfoldable pub choose_follower : ℕ → Cluster S H → Result ClusterError ℕ
  unfolding first_other
  choose_follower leader c = or_fail (first_other leader (active_node_ids c)) no_follower

  unfoldable pub get_value : String → RaftNode S H → Option String
  get_value k n = lookup k n.kv

  holds_value : String → String → Option (RaftNode S H) → Bool
  unfolding get_value
  holds_value k v none = false
  holds_value k v (some n) = elim (get_value k n) [ none ↦ false | some w ↦ w == v ]

  all_hold : String → String → Cluster S H → List ℕ → Bool
  unfolding holds_value
  all_hold k v c [] = true
  all_hold k v c (id ∷ ids) = holds_value k v (lookup id c) && all_hold k v c ids

  unfoldable pub wait_value : String → String → List (Round S H) → Result ClusterError (Unit {0})
  unfolding all_hold
  wait_value k v [] = err not_converged
  wait_value k v (r ∷ later) =
      let rest = wait_value k v later in
      if all_hold k v r.read (active_node_ids r.asked) then ok tt else rest

module _ {S H M : Type 0} (t : Transport H M) where
  unfoldable pub receive : M → Option (RaftNode S H) → Cluster S H → Cluster S H
  receive m none c = c
  receive m (some n) c = if n.stopped then c else elim (t.step m n.node) [
    | none ↦ c
    | some node ↦ insert (t.target m) (record n { node = node }) c
  ]

  -- a message to an unknown or stopped node is dropped, and one that `Step` refuses is logged
  unfoldable pub deliver : List M → Cluster S H → Cluster S H
  unfolding receive
  deliver [] c = c
  deliver (m ∷ ms) c = deliver ms (receive m (lookup (t.target m) c) c)

  leads : Option (RaftNode S H) → Bool
  leads none = false
  leads (some n) = t.is_leader n.node

  first_leader : Cluster S H → List ℕ → Option ℕ
  unfolding leads
  first_leader c [] = none
  first_leader c (id ∷ ids) =
      let rest = first_leader c ids in if leads (lookup id c) then some id else rest

  unfoldable pub wait_leader : List (Round S H) → Result ClusterError ℕ
  unfolding first_leader
  wait_leader [] = err election_timeout
  wait_leader (r ∷ later) =
      let rest = wait_leader later in
      elim (first_leader r.read (active_node_ids r.asked)) [ none ↦ rest | some id ↦ ok id ]

  propose_to :
      Codec
      → ℕ
      → Option (RaftNode S H)
      → String
      → String
      → Cluster S H
      → Result ClusterError (Cluster S H)
  propose_to c leader none k v ns = err leader_not_found
  propose_to c leader (some n) k v ns = if n.stopped then err leader_stopped else do
    b ← or_fail (c.marshal_command (record { key = k; value = v })) marshal_failed
    node ← or_fail (t.propose b n.node) propose_failed
    ok (insert leader (record n { node = node }) ns)

  unfoldable pub propose_kv :
      Codec → ℕ → String → String → Cluster S H → Result ClusterError (Cluster S H)
  unfolding propose_to
  propose_kv c leader k v ns = propose_to c leader (lookup leader ns) k v ns

-- newPersistentCluster: the disks left behind, and the cluster if every node boots. The nodes that
-- were made before a failure are stopped and dropped.
module _ {S H C : Type 0} (c : Codec) (raft : RaftLib S H C) where
  disk_of : Option Disk → Disk
  disk_of none = fresh
  disk_of (some d) = d

  boot_nodes :
      Os
      → List ℕ
      → List ℕ
      → Map ℕ Disk
      → Cluster S H
      → Map ℕ Disk × Result ClusterError (Cluster S H)
  unfolding disk_of
  boot_nodes os peers [] disks ns = (disks, ok ns)
  boot_nodes os peers (id ∷ ids) disks ns =
      let (d, booted) = new_raft_node c raft os id peers (disk_of (lookup id disks)) in
      elim booted [
        | ok n ↦ boot_nodes os peers ids (insert id d disks) (insert id n ns)
        | err e ↦ (insert id d disks, err (boot_error id e))
      ]

  unfoldable pub new_persistent_cluster :
      Os → List ℕ → Map ℕ Disk → Map ℕ Disk × Result ClusterError (Cluster S H)
  unfolding boot_nodes
  new_persistent_cluster os ids disks = boot_nodes os ids ids disks []
