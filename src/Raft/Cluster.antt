-- ===== src/Raft/Cluster.antt =====
-- cluster of etcd/raft/main.go: starting, the branches of `run`, delivering, stopping, proposing, and
-- the polls, which run over their rounds. The goroutines of the nodes go on meanwhile: a cluster that
-- is read has each node as it is when it is read, and a round reads every node twice.
use go_by_example.Prelude.{
  ℕ, Bool, true, false, ◌&&◌, Option, none, some, List, [], ◌∷◌, String, Result, ok, err, ◌>>=◌,
  or_fail, if◌then◌else◌, eqb, ◌==◌, Map, insert, lookup, comparable_number, comparable_string,
}
use go_by_example.Prelude.Sorting.{sort}
use go_by_example.Raft.{
  Ready, RaftLib, RaftNode, new_node, apply_committed, store_ready, stop, get_value,
}

abbrev pub Cluster : Type 0 → Type 0 → Type 0
Cluster S H = Map ℕ (RaftNode S H)

-- a round of a poll: the nodes as activeNodeIDs finds them, and then as the loop over their ids does
pub record Round (S H : Type 0) : Type 0 where
  pub asked : Cluster S H
  pub read : Cluster S H

pub data ClusterError : Type 0 where
  node_not_found election_timeout no_follower leader_not_found leader_stopped : ClusterError
  marshal_failed propose_failed not_replicated : ClusterError

module _ {S H M C T P : Type 0} (raft : RaftLib S H M C T P) where
  unfoldable pub start_nodes : List ℕ → List ℕ → Cluster S H → Cluster S H
  unfolding new_node
  start_nodes peers [] c = c
  start_nodes peers (id ∷ ids) c = start_nodes peers ids (insert id (new_node raft peers id) c)

  unfoldable pub new_cluster : List ℕ → Cluster S H
  unfolding start_nodes
  new_cluster ids = start_nodes ids ids []

  -- a message to an unknown or stopped node is dropped, and one that Step refuses is logged
  unfoldable pub receive : M → Option (RaftNode S H) → Cluster S H → Cluster S H
  receive m none c = c
  receive m (some n) c = if n.stopped then c else elim (raft.step m n.node) [
    | none ↦ c
    | some node ↦ insert (raft.target m) (record n { node = node }) c
  ]

  unfoldable pub deliver : List M → Cluster S H → Cluster S H
  unfolding receive
  deliver [] c = c
  deliver (m ∷ ms) c = deliver ms (receive m (lookup (raft.target m) c) c)

  -- the end of the Ready branch of `run`, after the messages are delivered
  unfoldable pub finish_ready : ℕ → Ready M T P → Option (RaftNode S H) → Cluster S H → Cluster S H
  unfolding apply_committed
  finish_ready id rd none c = c
  finish_ready id rd (some n) c =
      let applied = apply_committed raft rd.committed n in
      insert id (record applied { node = raft.advance applied.node }) c

  -- the Ready branch of `run` of node `n`
  unfoldable pub ready_branch : ℕ → Ready M T P → RaftNode S H → Cluster S H → Cluster S H
  unfolding deliver finish_ready store_ready
  ready_branch id rd n c =
      let stored = insert id (record n { storage = store_ready raft rd n.storage }) c in
      let delivered = deliver rd.messages stored in
      finish_ready id rd (lookup id delivered) delivered

  unfoldable pub tick_branch : ℕ → RaftNode S H → Cluster S H → Cluster S H
  tick_branch id n c = insert id (record n { node = raft.tick n.node }) c

  unfoldable pub stop_branch : ℕ → RaftNode S H → Cluster S H → Cluster S H
  stop_branch id n c = insert id (record n { node = raft.stop n.node; done = true }) c

  unfoldable pub stop_all : Cluster S H → Cluster S H
  unfolding stop
  stop_all [] = []
  stop_all ((id, n) ∷ ns) = (id, stop raft n) ∷ stop_all ns

  unfoldable pub stop_found :
      ℕ → Option (RaftNode S H) → Cluster S H → Result ClusterError (Cluster S H)
  unfolding stop
  stop_found id none c = err node_not_found
  stop_found id (some n) c = ok (insert id (stop raft n) c)

  unfoldable pub stop_node : ℕ → Cluster S H → Result ClusterError (Cluster S H)
  unfolding stop_found
  stop_node id c = stop_found id (lookup id c) c

  running : Cluster S H → List ℕ
  running [] = []
  running ((id, n) ∷ ns) = let rest = running ns in if n.stopped then rest else id ∷ rest

  unfoldable pub active_node_ids : Cluster S H → List ℕ
  unfolding running
  active_node_ids c = sort (λ i. i) (running c)

  leads : Option (RaftNode S H) → Bool
  leads none = false
  leads (some n) = raft.is_leader n.node

  first_leader : Cluster S H → List ℕ → Option ℕ
  unfolding leads
  first_leader c [] = none
  first_leader c (id ∷ ids) =
      let rest = first_leader c ids in if leads (lookup id c) then some id else rest

  unfoldable pub wait_leader : List (Round S H) → Result ClusterError ℕ
  unfolding first_leader active_node_ids
  wait_leader [] = err election_timeout
  wait_leader (r ∷ later) =
      let rest = wait_leader later in
      elim (first_leader r.read (active_node_ids r.asked)) [ none ↦ rest | some id ↦ ok id ]

  -- the first that is neither the leader given nor leads by its own status
  first_follower : ℕ → Cluster S H → List ℕ → Option ℕ
  unfolding leads
  first_follower leader c [] = none
  first_follower leader c (id ∷ ids) =
      let rest = first_follower leader c ids in
      if eqb id leader then rest else if leads (lookup id c) then rest else some id

  unfoldable pub choose_follower : ℕ → Round S H → Result ClusterError ℕ
  unfolding first_follower active_node_ids
  choose_follower leader r =
      or_fail (first_follower leader r.read (active_node_ids r.asked)) no_follower

  unfoldable pub propose_to :
      ℕ → Option (RaftNode S H) → String → String → Cluster S H → Result ClusterError (Cluster S H)
  propose_to leader none key value c = err leader_not_found
  propose_to leader (some n) key value c = if n.stopped then err leader_stopped else do
    b ← or_fail (raft.marshal_command (record { key = key; value = value })) marshal_failed
    node ← or_fail (raft.propose b n.node) propose_failed
    ok (insert leader (record n { node = node }) c)

  unfoldable pub propose_kv : ℕ → String → String → Cluster S H → Result ClusterError (Cluster S H)
  unfolding propose_to
  propose_kv leader key value c = propose_to leader (lookup leader c) key value c

  has_value : String → String → Option (RaftNode S H) → Bool
  unfolding get_value
  has_value key expect none = false
  has_value key expect (some n) = elim (get_value raft key n) [
    | none ↦ false
    | some v ↦ v == expect
  ]

  all_match : String → String → Cluster S H → List ℕ → Bool
  unfolding has_value
  all_match key expect c [] = true
  all_match key expect c (id ∷ ids) =
      has_value key expect (lookup id c) && all_match key expect c ids

  unfoldable pub wait_value : String → String → List (Round S H) → Result ClusterError (Unit {0})
  unfolding all_match active_node_ids
  wait_value key expect [] = err not_replicated
  wait_value key expect (r ∷ later) =
      let rest = wait_value key expect later in
      if all_match key expect r.read (active_node_ids r.asked) then ok tt else rest
