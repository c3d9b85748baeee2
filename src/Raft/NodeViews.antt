-- ===== src/Raft/NodeViews.antt =====
-- What delivery and the Ready branch do to the values and the applied index of the nodes.
use go_by_example.Prelude.{
  ℕ, ◌≡◌, ◌∙◌, inl, inr, refl, sym, ap, false, Option, none, some, List, [], ◌∷◌, ◌++◌, String,
  if◌then◌else◌, eqb, eqb_iff, Map, lookup, insert, comparable_number, comparable_string,
  lookup-insert, lookup-insert_self, arith, Bool-cases, Option-cases, subst,
}
use go_by_example.Raft.{
  Entry, Ready, RaftLib, RaftNode, apply_normal, apply_change, apply_kind, apply_committed,
  store_ready,
}
use go_by_example.Raft.Cluster.{Cluster, receive, deliver, finish_ready, ready_branch}
use go_by_example.Raft.Events.{live, stoppable, when, command_in, replay}

-- what a state machine is: the values and the applied index
abbrev pub View : Type 0
View = Option (Map String String × ℕ)

abbrev pub last_index : ℕ → List Entry → ℕ
last_index i [] = i
last_index i (e ∷ es) = last_index e.index es

module _ {S H : Type 0} where
  abbrev pub view : Option (RaftNode S H) → View
  view none = none
  view (some n) = some (n.kv, n.applied_index)

  -- A node that keeps its values and its index keeps all the views.
  pub view-insert :
      (id i : ℕ) (n m : RaftNode S H) (c : Cluster S H)
      → lookup id c ≡ some n
      → m.kv ≡ n.kv
      → m.applied_index ≡ n.applied_index
      → view (lookup i (insert id m c)) ≡ view (lookup i c)
  view-insert id i n m c l e e' = ground (arith, lookup-insert id i m c, eqb_iff id i)

  pub live-some : (o : Option (RaftNode S H)) (n : RaftNode S H) → live o ≡ some n → o ≡ some n
  live-some none n e = e
  live-some (some m) n e = ground arith

  pub stoppable-some :
      (o : Option (RaftNode S H)) (n : RaftNode S H) → stoppable o ≡ some n → o ≡ some n
  stoppable-some none n e = e
  stoppable-some (some m) n e = ground arith

  pub when-view :
      (o : Option (RaftNode S H)) (f : RaftNode S H → Cluster S H → Cluster S H) (c : Cluster S H)
      (i : ℕ)
      → ((n : RaftNode S H) → o ≡ some n → view (lookup i (f n c)) ≡ view (lookup i c))
      → view (lookup i (when o f c)) ≡ view (lookup i c)
  when-view none f c i h = refl
  when-view (some n) f c i h = h n refl

module _ {S H M C T P : Type 0} (raft : RaftLib S H M C T P) where
  pub receive-view :
      (m : M) (c : Cluster S H) (i : ℕ)
      → view (lookup i (receive raft m (lookup (raft.target m) c) c)) ≡ view (lookup i c)
  unfolding receive
  receive-view m c i = elim (Option-cases (lookup (raft.target m) c)) [
    | inl e ↦ rw e refl
    | inr (n, e) ↦ elim (Bool-cases n.stopped) [
      | inl s ↦ rw (e, s) refl
      | inr s ↦ elim (Option-cases (raft.step m n.node)) [
        | inl t ↦ rw (e, s, t) refl
        | inr (h, t) ↦
            ground (arith, view-insert (raft.target m) i n (record n { node = h }) c e refl refl)
      ]
    ]
  ]

  pub deliver-view :
      (ms : List M) (c : Cluster S H) (i : ℕ)
      → view (lookup i (deliver raft ms c)) ≡ view (lookup i c)
  unfolding deliver
  deliver-view [] c i = refl
  deliver-view (m ∷ ms) c i =
      deliver-view ms (receive raft m (lookup (raft.target m) c) c) i ∙ receive-view m c i

  -- what entries do to a view
  abbrev pub after : List Entry → View → View
  after es none = none
  after es (some (kv, i)) = some (replay raft es kv, last_index i es)

  pub after-append : (es fs : List Entry) (v : View) → after (es ++ fs) v ≡ after fs (after es v)
  unfolding replay
  after-append es fs none = refl
  after-append [] fs (some (kv, i)) = refl
  after-append (e ∷ es) fs (some (kv, i)) =
      after-append es fs (some (command_in raft e kv, e.index))

  pub apply_kind-view :
      (e : Entry) (n : RaftNode S H)
      → ((apply_kind raft e.kind e.payload n).kv ≡ command_in raft e n.kv)
        × ((apply_kind raft e.kind e.payload n).applied_index ≡ n.applied_index)
  unfolding apply_kind apply_normal apply_change command_in
  apply_kind-view e n = ground arith

  pub apply_committed-view :
      (es : List Entry) (n : RaftNode S H)
      → view (some (apply_committed raft es n)) ≡ after es (view (some n))
  unfolding apply_committed replay
  apply_committed-view [] n = refl
  apply_committed-view (e ∷ es) n =
      let m = record n { applied_index = e.index } in
      let (kv, index) = apply_kind-view e m in
      apply_committed-view es (apply_kind raft e.kind e.payload m) ∙ rw (kv, index) refl

  pub after-nil : (v : View) → after [] v ≡ v
  unfolding replay
  after-nil none = refl
  after-nil (some (kv, i)) = refl

  pub finish_ready-own :
      (id : ℕ) (rd : Ready M T P) (o : Option (RaftNode S H)) (c : Cluster S H)
      → lookup id c ≡ o
      → view (lookup id (finish_ready raft id rd o c)) ≡ after rd.committed (view o)
  unfolding finish_ready
  finish_ready-own id rd none c e = rw e refl
  finish_ready-own id rd (some n) c e =
      let applied = apply_committed raft rd.committed n in
      ap view (lookup-insert_self id (record applied { node = raft.advance applied.node }) c)
      ∙ apply_committed-view rd.committed n

  pub finish_ready-other :
      (id i : ℕ) (rd : Ready M T P) (o : Option (RaftNode S H)) (c : Cluster S H)
      → eqb id i ≡ false
      → lookup i (finish_ready raft id rd o c) ≡ lookup i c
  unfolding finish_ready
  finish_ready-other id i rd none c e = refl
  finish_ready-other id i rd (some n) c e =
      let applied = apply_committed raft rd.committed n in
      ground (arith, lookup-insert id i (record applied { node = raft.advance applied.node }) c)

  pub ready_branch-view :
      (id i : ℕ) (rd : Ready M T P) (n : RaftNode S H) (c : Cluster S H)
      → lookup id c ≡ some n
      → view (lookup i (ready_branch raft id rd n c))
        ≡ after (if eqb id i then rd.committed else []) (view (lookup i c))
  unfolding ready_branch
  ready_branch-view id i rd n c l =
      let m = record n { storage = store_ready raft rd n.storage } in
      let stored = insert id m c in
      let delivered = deliver raft rd.messages stored in
      let kept = deliver-view rd.messages stored i ∙ view-insert id i n m c l refl refl in
      elim (Bool-cases (eqb id i)) [
        | inl e ↦
            let same : id ≡ i = ground (arith, eqb_iff id i) in
            rw e (
              subst
                (λ j.
                  view (lookup j (finish_ready raft id rd (lookup id delivered) delivered))
                  ≡ after rd.committed (view (lookup j delivered)))
                same (finish_ready-own id rd (lookup id delivered) delivered refl)
              ∙ ap (after rd.committed) kept)
        | inr e ↦ rw e (
            ap view (finish_ready-other id i rd (lookup id delivered) delivered e)
            ∙ kept
            ∙ sym (after-nil (view (lookup i c))))
      ]
