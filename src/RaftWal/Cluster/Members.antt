-- ===== src/RaftWal/Cluster/Members.antt =====
-- The choice of a follower, the poll for a value, and delivery to a stopped node.
use mathlib.Core.Bool.{false≢true}
use go_by_example.Prelude.{
  ℕ, ◌≡◌, ◌≢◌, ◌≤◌, ◌↔◌, refl, sym, ◌∙◌, ◌⊎◌, inl, inr, true, Option, none, some, List, [], ◌∷◌,
  String, ok, err, eqb, lookup, comparable_number, comparable_string, All, arith, Bool-cases,
  Option-cases, subst, All-map, lookup-insert, Distinct,
}
use mathlib.Core.List.Perm
use go_by_example.Prelude.Sorting.{IsSorted}
use go_by_example.RaftWal.Node.{RaftNode}
use go_by_example.RaftWal.Cluster.Active.{
  active_node_ids_lem, IsActive, All-active_node_ids, All-of_active_node_ids,
}
use go_by_example.RaftWal.Cluster.{
  Cluster, Round, active_node_ids, first_other, choose_follower, no_follower, get_value,
  holds_value, all_hold, wait_value, Transport, receive, deliver,
}

first_other-some :
    (P : ℕ → Type 0) (leader id : ℕ) (l : List ℕ)
    → IsSorted (λ i. i) l
    → All P l
    → first_other leader l ≡ some id
    → (id ≢ leader) × P id × All (λ j. (j ≡ leader) ⊎ (id ≤ j)) l
unfolding first_other
first_other-some P leader id [] s a h = ground arith
first_other-some P leader id (x ∷ l) s a h = elim (Bool-cases (eqb x leader)) [
  | inl e ↦
      let (ne, p, least) = first_other-some P leader id l s.1 a.1 (rw e at h) in
      (ne, p, (inl (ground arith), least))
  | inr e ↦
      let at : x ≡ id = ground arith in
      (
        ground arith,
        subst P at a.0,
        (inr (omega arith), All-map (λ j (le : x ≤ j). inr (subst (λ y. y ≤ j) at le)) l s.0),
      )
]

first_other-none : (leader : ℕ) (l : List ℕ) → first_other leader l ≡ none → All (λ j. j ≡ leader) l
unfolding first_other
first_other-none leader [] h = tt
first_other-none leader (x ∷ l) h = elim (Bool-cases (eqb x leader)) [
  | inl e ↦ (ground arith, first_other-none leader l (rw e at h))
  | inr e ↦ ground arith
]

module _ {S H : Type 0} where
  -- In a map of nodes with one entry for a key, chooseFollower answers with the least node but the
  -- leader that is not stopped, and with an error only if every node but the leader is stopped.
  pub choose_follower_lem :
      (leader : ℕ) (c : Cluster S H)
      → Distinct c
      → ((id : ℕ) × (choose_follower leader c ≡ ok id)
          × (id ≢ leader)
          × IsActive c id
          × ((j : ℕ) → IsActive c j → (j ≡ leader) ⊎ (id ≤ j)))
        ⊎ ((choose_follower leader c ≡ err no_follower) × ((j : ℕ) → IsActive c j → j ≡ leader))
  unfolding choose_follower
  choose_follower_lem leader c d = elim (Option-cases (first_other leader (active_node_ids c))) [
    | inl e ↦
        let leads = first_other-none leader (active_node_ids c) e in
        inr (rw e, All-of_active_node_ids (λ j. j ≡ leader) c leads)
    | inr (id, e) ↦
        let active = All-active_node_ids (IsActive c) c d (λ j up. up) in
        let (ne, up, least) =
          first_other-some (IsActive c) leader id (active_node_ids c) (sorted c) active e in
        inl (id, rw e, ne, up, All-of_active_node_ids (λ j. (j ≡ leader) ⊎ (id ≤ j)) c least)
  ]
    where
      sorted : (d : Cluster S H) → IsSorted (λ i. i) (active_node_ids d)
      sorted d = (active_node_ids_lem d d (Perm.refl d)).0

  -- the value is read of every node that was not stopped when it was asked
  abbrev pub Converged : String → String → Round S H → Type 0
  Converged k v r =
      (id : ℕ)
      → IsActive r.asked id
      → (n : RaftNode S H) × (lookup id r.read ≡ some n) × (lookup k n.kv ≡ some v)

  holds_value_lem :
      (k v : String) (o : Option (RaftNode S H))
      → holds_value k v o ≡ true
      → (n : RaftNode S H) × (o ≡ some n) × (lookup k n.kv ≡ some v)
  unfolding holds_value get_value
  holds_value_lem k v none h = ground arith
  holds_value_lem k v (some n) h = elim (Option-cases (lookup k n.kv)) [
    | inl e ↦ ground arith
    | inr (w, e) ↦ (n, refl, ground (arith, comparable_string.same_iff w v))
  ]

  holds_value_complete :
      (k v : String) (o : Option (RaftNode S H)) (n : RaftNode S H)
      → o ≡ some n
      → lookup k n.kv ≡ some v
      → holds_value k v o ≡ true
  unfolding holds_value get_value
  holds_value_complete k v none n there value = ground arith
  holds_value_complete k v (some m) n there value =
      let same : m ≡ n = cc in
      let value' : lookup k m.kv ≡ some v = rw same value in
      rw (value', holds_value) ((comparable_string.same_iff v v).1 refl)

  all_hold_iff :
      (k v : String) (c : Cluster S H) (ids : List ℕ)
      → (all_hold k v c ids ≡ true)
        ↔ All (λ id. (n : RaftNode S H) × (lookup id c ≡ some n) × (lookup k n.kv ≡ some v)) ids
  unfolding all_hold
  all_hold_iff k v c [] = (λ h. tt, λ h. refl)
  all_hold_iff k v c (id ∷ ids) = (
    λ h.
        let first : holds_value k v (lookup id c) ≡ true = ground arith in
        let rest : all_hold k v c ids ≡ true = ground arith in
        (holds_value_lem k v (lookup id c) first, (all_hold_iff k v c ids).0 rest),
    λ h.
        let ((n, there, value), rest) = h in
        rw (holds_value_complete k v (lookup id c) n there value) ((all_hold_iff k v c ids).1 rest),
  )

  round_holds :
      (k v : String) (r : Round S H)
      → Distinct r.asked
      → (all_hold k v r.read (active_node_ids r.asked) ≡ true) ↔ Converged k v r
  round_holds k v r d =
      let both = all_hold_iff k v r.read (active_node_ids r.asked) in
      let Holds =
        λ (id : ℕ). (n : RaftNode S H) × (lookup id r.read ≡ some n) × (lookup k n.kv ≡ some v) in
      (
        λ h. All-of_active_node_ids Holds r.asked (both.0 h),
        λ h. both.1 (All-active_node_ids Holds r.asked d h),
      )

  -- one of the rounds has converged
  abbrev pub Reached : String → String → List (Round S H) → Type 0
  Reached k v [] = ⊥
  Reached k v (r ∷ later) = Converged k v r ⊎ Reached k v later

  -- Where the rounds see maps with one entry for a key, waitValueOnActiveNodes succeeds exactly when
  -- in some round before the deadline the value is read of every node that is not stopped when the
  -- round asks which are active.
  pub wait_value_iff :
      (k v : String) (polls : List (Round S H))
      → All (λ (r : Round S H). Distinct r.asked) polls
      → (wait_value k v polls ≡ ok tt) ↔ Reached k v polls
  unfolding wait_value
  wait_value_iff k v [] d = (λ h. ground arith, λ h. absurd h)
  wait_value_iff k v (r ∷ later) d =
      let holds = round_holds k v r d.0 in
      let rest = wait_value_iff k v later d.1 in
      elim (Bool-cases (all_hold k v r.read (active_node_ids r.asked))) [
        | inl e ↦ (λ h. inl (holds.0 e), λ h. rw e)
        | inr e ↦ (
          λ h. inr (rest.0 (rw e at h)),
          λ h. rw e (elim h [
            | inl now ↦ absurd (false≢true (sym e ∙ holds.1 now))
            | inr reached ↦ rest.1 reached
          ]),
        )
      ]

module _ {S H M : Type 0} (t : Transport H M) where
  receive-stopped :
      (m : M) (o : Option (RaftNode S H)) (c : Cluster S H) (id : ℕ) (n : RaftNode S H)
      → o ≡ lookup (t.target m) c
      → lookup id c ≡ some n
      → n.stopped ≡ true
      → lookup id (receive t m o c) ≡ some n
  unfolding receive
  receive-stopped m none c id n found there stopped = there
  receive-stopped m (some r) c id n found there stopped = elim (Option-cases (t.step m r.node)) [
    | inl e ↦ ground arith
    | inr (node, e) ↦ ground (arith, lookup-insert (t.target m) id (record r { node = node }) c)
  ]

  -- Delivering messages leaves a stopped node as it is.
  pub deliver-stopped :
      (ms : List M) (c : Cluster S H) (id : ℕ) (n : RaftNode S H)
      → lookup id c ≡ some n
      → n.stopped ≡ true
      → lookup id (deliver t ms c) ≡ some n
  unfolding deliver
  deliver-stopped [] c id n there stopped = there
  deliver-stopped (m ∷ ms) c id n there stopped =
      deliver-stopped ms (receive t m (lookup (t.target m) c) c) id n
        (receive-stopped m (lookup (t.target m) c) c id n refl there stopped) stopped
