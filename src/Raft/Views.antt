-- ===== src/Raft/Views.antt =====
-- What each event does to the values and the applied index of the nodes of a cluster.
use go_by_example.Prelude.{
  ℕ, ◌≡◌, ◌∙◌, inl, inr, refl, sym, ap, Bool, true, false, some, List, [], ◌∷◌, String,
  if◌then◌else◌, eqb, lookup, comparable_number, comparable_string, arith, Bool-cases, Option-cases,
}
use go_by_example.Raft.{RaftLib, RaftNode, stop}
use go_by_example.Raft.Cluster.{
  Cluster, tick_branch, stop_branch, stop_all, stop_found, stop_node, propose_to, propose_kv,
}
use go_by_example.Raft.Events.{
  Event, tick, ready, halt, stopping, stopping_all, proposing, live, stoppable, or_left, happen,
  run_events, handed_now, handed,
}
use go_by_example.Raft.NodeViews.{
  View, view, view-insert, live-some, stoppable-some, when-view, after, after-append, after-nil,
  ready_branch-view,
}

module _ {S H M C T P : Type 0} (raft : RaftLib S H M C T P) where
  stop_all-view : (c : Cluster S H) (i : ℕ) → view (lookup i (stop_all raft c)) ≡ view (lookup i c)
  unfolding stop_all stop lookup
  stop_all-view [] i = refl
  stop_all-view ((id, n) ∷ c) i = ground (arith, stop_all-view c i)

  stop_node-view :
      (id i : ℕ) (c : Cluster S H)
      → view (lookup i (or_left c (stop_node raft id c))) ≡ view (lookup i c)
  unfolding stop_node stop_found stop
  stop_node-view id i c = elim (Option-cases (lookup id c)) [
    | inl e ↦ rw e refl
    | inr (n, e) ↦ ground (arith, view-insert id i n (stop raft n) c e)
  ]

  propose_to-view :
      (id i : ℕ) (n : RaftNode S H) (key value : String) (c : Cluster S H)
      → lookup id c ≡ some n
      → view (lookup i (or_left c (propose_to raft id (some n) key value c))) ≡ view (lookup i c)
  unfolding propose_to
  propose_to-view id i n key value c e = elim (Bool-cases n.stopped) [
    | inl s ↦ rw s refl
    | inr s ↦ elim (Option-cases (raft.marshal_command (record { key = key; value = value }))) [
      | inl m ↦ rw (s, m) refl
      | inr (b, m) ↦ elim (Option-cases (raft.propose b n.node)) [
        | inl p ↦ rw (s, m, p) refl
        | inr (h, p) ↦ ground (arith, view-insert id i n (record n { node = h }) c e refl refl)
      ]
    ]
  ]

  propose_kv-view :
      (id i : ℕ) (key value : String) (c : Cluster S H)
      → view (lookup i (or_left c (propose_kv raft id key value c))) ≡ view (lookup i c)
  unfolding propose_kv propose_to
  propose_kv-view id i key value c = elim (Option-cases (lookup id c)) [
    | inl e ↦ rw e refl
    | inr (n, e) ↦ rw e (propose_to-view id i n key value c e)
  ]

  tick_branch-view :
      (id i : ℕ) (n : RaftNode S H) (c : Cluster S H)
      → lookup id c ≡ some n
      → view (lookup i (tick_branch raft id n c)) ≡ view (lookup i c)
  unfolding tick_branch
  tick_branch-view id i n c e =
      view-insert id i n (record n { node = raft.tick n.node }) c e refl refl

  stop_branch-view :
      (id i : ℕ) (n : RaftNode S H) (c : Cluster S H)
      → lookup id c ≡ some n
      → view (lookup i (stop_branch raft id n c)) ≡ view (lookup i c)
  unfolding stop_branch
  stop_branch-view id i n c e =
      view-insert id i n (record n { node = raft.stop n.node; done = true }) c e refl refl

  nothing : (b : Bool) (v : View) → v ≡ after raft (if b then [] else []) v
  nothing true v = sym (after-nil raft v)
  nothing false v = sym (after-nil raft v)

  happen-view :
      (e : Event M T P) (c : Cluster S H) (i : ℕ)
      → view (lookup i (happen raft e c)) ≡ after raft (handed_now raft i e c) (view (lookup i c))
  unfolding happen handed_now
  happen-view (tick id) c i =
      when-view (live (lookup id c)) (tick_branch raft id) c i
        (λ n e. tick_branch-view id i n c (live-some (lookup id c) n e))
      ∙ sym (after-nil raft (view (lookup i c)))
  happen-view (ready id rd) c i = elim (Option-cases (live (lookup id c))) [
    | inl e ↦ rw e (nothing (eqb id i) (view (lookup i c)))
    | inr (n, e) ↦ rw e (ready_branch-view raft id i rd n c (live-some (lookup id c) n e))
  ]
  happen-view (halt id) c i =
      when-view (stoppable (live (lookup id c))) (stop_branch raft id) c i (λ n e.
        stop_branch-view id i n c
          (live-some (lookup id c) n (stoppable-some (live (lookup id c)) n e)))
      ∙ sym (after-nil raft (view (lookup i c)))
  happen-view (stopping id) c i = stop_node-view id i c ∙ sym (after-nil raft (view (lookup i c)))
  happen-view stopping_all c i = stop_all-view c i ∙ sym (after-nil raft (view (lookup i c)))
  happen-view (proposing id key value) c i =
      propose_kv-view id i key value c ∙ sym (after-nil raft (view (lookup i c)))

  -- The events leave in each node what the entries handed to it leave.
  pub run_events-view :
      (es : List (Event M T P)) (c : Cluster S H) (i : ℕ)
      → view (lookup i (run_events raft es c)) ≡ after raft (handed raft i es c) (view (lookup i c))
  unfolding run_events handed
  run_events-view [] c i = sym (after-nil raft (view (lookup i c)))
  run_events-view (e ∷ es) c i =
      run_events-view es (happen raft e c) i
      ∙ ap (after raft (handed raft i es (happen raft e c))) (happen-view e c i)
      ∙ sym (
          after-append raft (handed_now raft i e c) (handed raft i es (happen raft e c))
            (view (lookup i c)))
