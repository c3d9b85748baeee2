-- ===== src/Metcd/Serving.antt =====
-- What a node of newRaftNode takes and publishes.
use go_by_example.Prelude.{
  ℕ, ◌≤◌, ◌≡◌, ◌⊎◌, inl, inr, refl, ap, sym, subst, ◌∙◌, true, false, Option, none, some, List, [],
  ◌∷◌, ◌++◌, String, All, arith, Option-cases, Bool-cases,
}
use go_by_example.Metcd.{
  Lib, RaftNode, new_raft_node, Ready, Event, input, leave, ticker, stopped, ready,
  publish_snapshot, handle_ready, begun, begin_serving, step, steps,
}
use go_by_example.Metcd.Published.{
  Published, nils, last_index, Ascending, snapshot_indices, steps-Published, when-some,
}

abbrev pub IsNoInput : {C E T P : Type 0} → Event C E T P → Type 0
IsNoInput (input i) = ⊥
IsNoInput _ = Unit

-- the index of the storage, and 0 if it gives none
abbrev pub first_index : Option ℕ → ℕ
first_index none = 0
first_index (some i) = i

module _ {X C E T P : Type 0} (etcd : Lib X C E T P) where
  record Fit (first : ℕ) (n : RaftNode) : Type 0 where
    no_conf : n.conf_change_c ≡ false
    all_nil : All (λ c. c ≡ none) n.commits
    same_index : n.applied_index ≡ n.snapshot_index
    moved : first ≤ n.snapshot_index

  append-nil :
      (cs : List (Option (List String)))
      → All (λ c. c ≡ none) cs
      → All (λ c. c ≡ none) (cs ++ none ∷ [])
  append-nil [] h = (refl, tt)
  append-nil (c ∷ cs) h = (h.0, append-nil cs h.1)

  publish_snapshot-Fit :
      (p : P) (first : ℕ) (n : RaftNode) → Fit first n → Fit first (publish_snapshot etcd p n)
  unfolding publish_snapshot
  publish_snapshot-Fit p first n h = ground (arith, append-nil n.commits h.all_nil)

  handle_ready-publish_snapshot :
      (rd : Ready E T P) (n : RaftNode) (x : X)
      → (handle_ready etcd rd n x).0 ≡ publish_snapshot etcd rd.snapshot n
  unfolding handle_ready
  handle_ready-publish_snapshot rd n x = elim (Bool-cases (etcd.is_empty_snap rd.snapshot)) [
    | inl e ↦ rw e refl
    | inr e ↦ rw e refl
  ]

  step-Fit :
      (e : Event C E T P) (first : ℕ) (n m : RaftNode) (x y : X)
      → step etcd e n x ≡ some (m, y)
      → Fit first n
      → Fit first m × IsNoInput e
  unfolding step
  step-Fit (input i) first n m x y e h = absurd (ground arith)
  step-Fit leave first n m x y e h = (ground arith, tt)
  step-Fit ticker first n m x y e h = (ground arith, tt)
  step-Fit (ready rd) first n m x y e h = (
    subst (Fit first)
        (sym (handle_ready-publish_snapshot rd n x) ∙ ap (λ r. r.0) (when-some etcd _ _ (m, y) e).1)
        (publish_snapshot-Fit rd.snapshot first n h),
    tt,
  )
  step-Fit stopped first n m x y e h = (ground arith, tt)

  steps-Fit :
      (es : List (Event C E T P)) (first : ℕ) (n m : RaftNode) (x y : X)
      → steps etcd es n x ≡ some (m, y)
      → Fit first n
      → Fit first m × All IsNoInput es
  unfolding steps
  steps-Fit [] first n m x y e h = (ground arith, tt)
  steps-Fit (o ∷ es) first n m x y e h = elim (Option-cases (step etcd o n x)) [
    | inl ends ↦ absurd (ground arith)
    | inr ((k, z), stepped) ↦
        let (fit, quiet) = step-Fit o first n k x z stepped h in
        let (last, others) = steps-Fit es first k m z y (ground arith) fit in
        (last, (quiet, others))
  ]

  start-Fit : (o : Option ℕ) → Fit (first_index o) (begun etcd new_raft_node o)
  unfolding new_raft_node
  start-Fit none = ground arith
  start-Fit (some i) = ground arith

  -- A node of newRaftNode that serves its channels takes no proposal and no configuration change, in
  -- whatever order the events come; and as long as the process lives, the goroutine that should take
  -- them has closed stopc or can do so.
  pub takes_nothing :
      (es : List (Event C E T P)) (n : RaftNode) (x y : X)
      → steps etcd es (begin_serving etcd new_raft_node x) x ≡ some (n, y)
      → All IsNoInput es
        × (n.fatal ≡ false
            → (n.stopc_closed ≡ true)
              ⊎ ((m : RaftNode) × (step etcd leave n y ≡ some (m, y)) × (m.stopc_closed ≡ true)))
  unfolding begin_serving step
  takes_nothing es n x y e =
      let (fit, quiet) =
        steps-Fit es (first_index (etcd.storage_index x))
          (begun etcd new_raft_node (etcd.storage_index x)) n x y e
          (start-Fit (etcd.storage_index x)) in
      (
        quiet,
        λ alive. elim (Bool-cases n.stopc_closed) [
          | inl closed ↦ inl closed
          | inr opened ↦ inr (record n { stopc_closed = true }, ground (arith, fit.no_conf), refl)
        ],
      )

  published :
      (o : Option ℕ) (n : RaftNode) (js : List ℕ)
      → Published js (begun etcd new_raft_node o) n
      → (n.commits ≡ nils js)
        × (n.snapshot_index ≡ last_index (first_index o) js)
        × Ascending (first_index o) js
  unfolding new_raft_node
  published none n js p = (p.sent, p.moved, p.above)
  published (some i) n js p = (p.sent, p.moved, p.above)

  -- What such a node publishes is nil and never the values of committed entries, and its applied
  -- index is its snapshot index. As long as the process lives, it has published nil once for every
  -- snapshot that is not empty, whose indices go up from that of the storage, and both its indices are
  -- that of the last such snapshot, or of the storage if there was none.
  pub publishes_no_entry :
      (es : List (Event C E T P)) (n : RaftNode) (x y : X)
      → steps etcd es (begin_serving etcd new_raft_node x) x ≡ some (n, y)
      → All (λ c. c ≡ none) n.commits
        × (n.applied_index ≡ n.snapshot_index)
        × (n.fatal ≡ false
            → (n.commits ≡ nils (snapshot_indices etcd es))
              × (n.snapshot_index
                  ≡ last_index (first_index (etcd.storage_index x)) (snapshot_indices etcd es))
              × Ascending (first_index (etcd.storage_index x)) (snapshot_indices etcd es))
  unfolding begin_serving
  publishes_no_entry es n x y e =
      let o = etcd.storage_index x in
      let (fit, quiet) =
        steps-Fit es (first_index o) (begun etcd new_raft_node o) n x y e (start-Fit o) in
      (
        fit.all_nil,
        fit.same_index,
        λ alive.
            let (live, told) = steps-Published etcd es (begun etcd new_raft_node o) n x y e alive in
            published o n (snapshot_indices etcd es) told,
      )
