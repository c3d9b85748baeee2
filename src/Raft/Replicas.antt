-- ===== src/Raft/Replicas.antt =====
-- The nodes of a cluster as replicas of one log.
use go_by_example.Prelude.{
  ℕ, zero, suc, ◌+◌, ◌≤◌, ◌≡◌, ◌∙◌, ◌⊎◌, inl, inr, refl, sym, ap, Option, none, some, List, [], ◌∷◌,
  eqb, lookup, insert, comparable_number, comparable_string, lookup-insert, arith, Bool-cases,
  length, take, subst,
}
use go_by_example.Raft.{Entry, RaftLib, RaftNode, new_node}
use go_by_example.Raft.Cluster.{Cluster, new_cluster, start_nodes}
use go_by_example.Raft.Events.{Event, run_events, handed, replay}
use go_by_example.Raft.NodeViews.{View, view, after, last_index}
use go_by_example.Raft.Views.{run_events-view}

-- the indices of a log
abbrev pub Numbered : ℕ → List Entry → Type 0
Numbered i [] = Unit
Numbered i (e ∷ es) = (e.index ≡ i) × Numbered (i + 1) es

last_index-take :
    (i n : ℕ) (log : List Entry)
    → Numbered (i + 1) log
    → n ≤ length log
    → last_index i (take n log) ≡ i + n
last_index-take i zero log h le = omega arith
last_index-take i (suc n) [] h le = omega arith
last_index-take i (suc n) (e ∷ es) h le =
    ap (λ j. last_index j (take n es)) h.0
    ∙ last_index-take (i + 1) n es h.1 (omega arith)
    ∙ omega arith

module _ {S H M C T P : Type 0} (raft : RaftLib S H M C T P) where
  start_nodes-view :
      (peers ids : List ℕ) (c : Cluster S H) (i : ℕ)
      → ((view (lookup i c) ≡ none) ⊎ (view (lookup i c) ≡ some ([], 0)))
      → (view (lookup i (start_nodes raft peers ids c)) ≡ none)
        ⊎ (view (lookup i (start_nodes raft peers ids c)) ≡ some ([], 0))
  unfolding start_nodes new_node
  start_nodes-view peers [] c i h = h
  start_nodes-view peers (id ∷ ids) c i h =
      let n = new_node raft peers id in
      start_nodes-view peers ids (insert id n c) i (elim (Bool-cases (eqb id i)) [
        | inl e ↦ inr (ap view (lookup-insert id i n c) ∙ rw e refl)
        | inr e ↦
            subst (λ (v : View). (v ≡ none) ⊎ (v ≡ some ([], 0)))
              (sym (ap view (lookup-insert id i n c) ∙ rw e refl)) h
      ])

  new_cluster-view :
      (ids : List ℕ) (i : ℕ)
      → (view (lookup i (new_cluster raft ids)) ≡ none)
        ⊎ (view (lookup i (new_cluster raft ids)) ≡ some ([], 0))
  unfolding new_cluster lookup
  new_cluster-view ids i = start_nodes-view ids ids [] i (inl refl)

  some_node :
      (o : Option (RaftNode S H)) (m : RaftNode S H) (es : List Entry) (v : View)
      → o ≡ some m
      → (v ≡ none) ⊎ (v ≡ some ([], 0))
      → view o ≡ after raft es v
      → (m.kv ≡ replay raft es []) × (m.applied_index ≡ last_index 0 es)
  some_node none m es v e h q = ground arith
  some_node (some n) m es v e (inl h) q = ground arith
  some_node (some n) m es v e (inr h) q = ground arith

  -- Every node of a cluster is a replica of the log: after any events of a new cluster, if raft has
  -- handed the first `n` entries of the log to a node, with the indices 1, 2 and so on, the applied
  -- index of the node is `n`, and its values are those that these entries leave, from none.
  pub replica_lem :
      (log : List Entry) (ids : List ℕ) (es : List (Event M T P)) (id n : ℕ) (m : RaftNode S H)
      → Numbered 1 log
      → n ≤ length log
      → handed raft id es (new_cluster raft ids) ≡ take n log
      → lookup id (run_events raft es (new_cluster raft ids)) ≡ some m
      → (m.applied_index ≡ n) × (m.kv ≡ replay raft (take m.applied_index log) [])
  replica_lem log ids es id n m numbered le prefix at =
      let c = new_cluster raft ids in
      let (kv, index) =
        some_node (lookup id (run_events raft es c)) m (take n log) (view (lookup id c)) at
          (new_cluster-view ids id)
          (run_events-view raft es c id ∙ ap (λ l. after raft l (view (lookup id c))) prefix) in
      let is_n : m.applied_index ≡ n = index ∙ last_index-take 0 n log numbered le ∙ omega arith in
      (is_n, kv ∙ ap (λ k. replay raft (take k log) []) (sym is_n))
