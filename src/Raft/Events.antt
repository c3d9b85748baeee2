-- ===== src/Raft/Events.antt =====
-- What happens to a cluster of etcd/raft/main.go over time, as a list of events: the branches that
-- the goroutines of `run` take, and what the methods of cluster do in between.
use go_by_example.Prelude.{
  ℕ, Option, none, some, List, [], ◌∷◌, ◌++◌, String, Result, ok, err, if◌then◌else◌, eqb, Map,
  lookup, comparable_number, comparable_string,
}
use go_by_example.Raft.{Entry, Ready, RaftLib, RaftNode, set_command, entry_normal}
use go_by_example.Raft.Cluster.{
  Cluster, ClusterError, tick_branch, ready_branch, stop_branch, stop_node, stop_all, propose_kv,
}

pub data Event (M T P : Type 0) : Type 0 where
  -- the branches of `run` of a node
  tick : ℕ → Event M T P
  ready : ℕ → Ready M T P → Event M T P
  halt : ℕ → Event M T P
  -- calls from outside
  stopping : ℕ → Event M T P
  stopping_all : Event M T P
  proposing : ℕ → String → String → Event M T P

module _ {S H : Type 0} where
  -- a branch is taken while the goroutine runs, and the stop branch once stopCh is closed
  abbrev pub live : Option (RaftNode S H) → Option (RaftNode S H)
  live none = none
  live (some n) = if n.done then none else some n

  abbrev pub stoppable : Option (RaftNode S H) → Option (RaftNode S H)
  stoppable none = none
  stoppable (some n) = if n.stopped then some n else none

  abbrev pub when :
      Option (RaftNode S H) → (RaftNode S H → Cluster S H → Cluster S H) → Cluster S H → Cluster S H
  when none f c = c
  when (some n) f c = f n c

  -- a call that fails leaves the cluster alone
  abbrev pub or_left : Cluster S H → Result ClusterError (Cluster S H) → Cluster S H
  or_left c (ok d) = d
  or_left c (err e) = c

module _ {S H M C T P : Type 0} (raft : RaftLib S H M C T P) where
  unfoldable pub happen : Event M T P → Cluster S H → Cluster S H
  happen (tick id) c = when (live (lookup id c)) (tick_branch raft id) c
  happen (ready id rd) c = when (live (lookup id c)) (ready_branch raft id rd) c
  happen (halt id) c = when (stoppable (live (lookup id c))) (stop_branch raft id) c
  happen (stopping id) c = or_left c (stop_node raft id c)
  happen stopping_all c = stop_all raft c
  happen (proposing id key value) c = or_left c (propose_kv raft id key value c)

  unfoldable pub run_events : List (Event M T P) → Cluster S H → Cluster S H
  unfolding happen
  run_events [] c = c
  run_events (e ∷ es) c = run_events es (happen e c)

  -- the committed entries that an event hands to node `id`
  unfoldable pub handed_now : ℕ → Event M T P → Cluster S H → List Entry
  handed_now id (ready i rd) c =
      if eqb i id then (elim (live (lookup i c)) [ none ↦ [] | some n ↦ rd.committed ]) else []
  handed_now id _ c = []

  -- all that the events hand to it, in order
  unfoldable pub handed : ℕ → List (Event M T P) → Cluster S H → List Entry
  unfolding handed_now
  handed id [] c = []
  handed id (e ∷ es) c = handed_now id e c ++ handed id es (happen e c)

  -- the values that a log of commands leaves: what a replica is to hold
  unfoldable pub command_in : Entry → Map String String → Map String String
  unfolding set_command
  command_in e kv = elim e.kind [
    | entry_normal ↦ elim e.payload [
      | [] ↦ kv
      | b ∷ bs ↦ set_command raft (raft.unmarshal_command (b ∷ bs)) kv
    ]
    | _ ↦ kv
  ]

  unfoldable pub replay : List Entry → Map String String → Map String String
  unfolding command_in
  replay [] kv = kv
  replay (e ∷ es) kv = replay es (command_in e kv)
