-- ===== src/RaftWal/Cluster/Active.antt =====
-- Which nodes of a cluster activeNodeIDs lists.
use mathlib.Core.Path.{subst₂}
use go_by_example.Prelude.{
  ℕ, ◌≡◌, refl, ap, ◌∙◌, inl, inr, Bool, true, false, some, List, [], ◌∷◌, if◌then◌else◌, eqb,
  lookup, comparable_number, comparable_string, All, Perm, arith, Bool-cases, subst, All-map,
  Distinct, Distinct-lookup, insert-Distinct, insert, Map, Result, ok, err,
}
use mathlib.Core.List.{Permᴰ}
use mathlib.Core.List.Permᴰ
use mathlib.Core.Logic.{∥∥₁_map}
use go_by_example.Prelude.Sorting.{IsSorted, sort-IsSorted, sort-of_perm, All-sort, All-of_sort}
use go_by_example.RaftWal.Messages.{Codec}
use go_by_example.RaftWal.Disk.{Disk, Os}
use go_by_example.RaftWal.Node.{RaftNode, RaftLib, BootError}
use go_by_example.RaftWal.Node.Boot.{new_raft_node}
use go_by_example.RaftWal.Cluster.{
  Cluster, running, active_node_ids, disk_of, boot_nodes, new_persistent_cluster, boot_error,
}

skip-perm :
    {xs ys : List ℕ} (b : Bool) (x : ℕ)
    → Permᴰ xs ys
    → Permᴰ (if b then xs else x ∷ xs) (if b then ys else x ∷ ys)
skip-perm true x p = p
skip-perm false x p = Permᴰ.cons refl p

skip_swap-perm :
    (b d : Bool) (x y : ℕ) (l : List ℕ)
    → Permᴰ
        (let r = if d then l else y ∷ l in if b then r else x ∷ r)
        (let r = if b then l else x ∷ l in if d then r else y ∷ r)
skip_swap-perm true true x y l = Permᴰ.refl l
skip_swap-perm true false x y l = Permᴰ.refl (y ∷ l)
skip_swap-perm false true x y l = Permᴰ.refl (x ∷ l)
skip_swap-perm false false x y l = Permᴰ.swap refl refl

module _ {S H : Type 0} where
  running-perm : {c d : Cluster S H} → Permᴰ c d → Permᴰ (running c) (running d)
  unfolding running
  running-perm Permᴰ.nil = Permᴰ.nil
  running-perm (Permᴰ.cons {a} {l₁} {l₂} e p) =
      subst (λ (z : ℕ × RaftNode S H). Permᴰ (running (a ∷ l₁)) (running (z ∷ l₂))) e
        (skip-perm a.1.stopped a.0 (running-perm p))
  running-perm (Permᴰ.swap {a} {b} {l} e f) =
      subst₂ (λ (x y : ℕ × RaftNode S H). Permᴰ (running (a ∷ b ∷ l)) (running (x ∷ y ∷ l))) f e
        (skip_swap-perm a.1.stopped b.1.stopped a.0 b.0 (running l))
  running-perm (Permᴰ.trans p q) = Permᴰ.trans (running-perm p) (running-perm q)

  -- activeNodeIDs lists the nodes that are not stopped in ascending order, and does not depend on
  -- the order in which `range` visits the map.
  pub active_node_ids_lem :
      (c d : Cluster S H)
      → Perm c d
      → IsSorted (λ i. i) (active_node_ids c) × (active_node_ids c ≡ active_node_ids d)
  unfolding active_node_ids
  active_node_ids_lem c d p =
      (sort-IsSorted (λ i. i) (running c), sort-of_perm (∥∥₁_map p running-perm))

  -- a node of the cluster that is not stopped
  abbrev pub IsActive : Cluster S H → ℕ → Type 0
  IsActive c id = (n : RaftNode S H) × (lookup id c ≡ some n) × (n.stopped ≡ false)

  All-running :
      (P : ℕ → Type 0) (c : Cluster S H)
      → All (λ (p : ℕ × RaftNode S H). p.1.stopped ≡ false → P p.0) c
      → All P (running c)
  unfolding running
  All-running P [] h = tt
  All-running P (p ∷ c) h = elim (Bool-cases p.1.stopped) [
    | inl e ↦ rw e (All-running P c h.1)
    | inr e ↦ rw e (h.0 e, All-running P c h.1)
  ]

  All-of_running :
      (P : ℕ → Type 0) (c : Cluster S H) (id : ℕ) (n : RaftNode S H)
      → All P (running c)
      → lookup id c ≡ some n
      → n.stopped ≡ false
      → P id
  unfolding running lookup
  All-of_running P [] id n h there up = ground arith
  All-of_running P (p ∷ c) id n h there up = elim (Bool-cases (eqb p.0 id)) [
    | inl e ↦
        let same : p.1 ≡ n = ground arith in
        let runs : p.1.stopped ≡ false = ap (λ (m : RaftNode S H). m.stopped) same ∙ up in
        let (first, rest) = rw runs at h in subst P (ground arith) first
    | inr e ↦ All-of_running P c id n (tail p.1.stopped h) (ground arith) up
  ]
    where
      tail : (b : Bool) → All P (if b then running c else p.0 ∷ running c) → All P (running c)
      tail true a = a
      tail false a = a.1

  -- activeNodeIDs lists the nodes that are not stopped, and no other.
  pub All-active_node_ids :
      (P : ℕ → Type 0) (c : Cluster S H)
      → Distinct c
      → ((id : ℕ) → IsActive c id → P id)
      → All P (active_node_ids c)
  unfolding active_node_ids
  All-active_node_ids P c d h =
      All-sort (λ i. i) P (running c)
        (All-running P c (All-map (λ p found up. h p.0 (p.1, found, up)) c (Distinct-lookup c d)))

  pub All-of_active_node_ids :
      (P : ℕ → Type 0) (c : Cluster S H)
      → All P (active_node_ids c)
      → (id : ℕ) → IsActive c id
      → P id
  unfolding active_node_ids
  All-of_active_node_ids P c h id (n, there, up) =
      All-of_running P c id n (All-of_sort (λ i. i) P (running c) h) there up

module _ {S H C : Type 0} (c : Codec) (raft : RaftLib S H C) where
  boot_nodes-Distinct :
      (os : Os) (peers ids : List ℕ) (disks disks' : Map ℕ Disk) (ns ms : Cluster S H)
      → boot_nodes c raft os peers ids disks ns ≡ (disks', ok ms)
      → Distinct ns
      → Distinct ms
  unfolding boot_nodes
  boot_nodes-Distinct os peers [] disks disks' ns ms e d = subst Distinct (ground arith) d
  boot_nodes-Distinct os peers (id ∷ ids) disks disks' ns ms e d =
      let (disk, booted) = new_raft_node c raft os id peers (disk_of c raft (lookup id disks)) in
      go disk booted
        (λ n h.
          boot_nodes-Distinct os peers ids (insert id disk disks) disks' (insert id n ns) ms h
            (insert-Distinct id n ns d))
        e
    where
      go :
          (disk : Disk) (booted : Result BootError (RaftNode S H))
          → ((n : RaftNode S H)
              → boot_nodes c raft os peers ids (insert id disk disks) (insert id n ns)
                ≡ (disks', ok ms)
              → Distinct ms)
          → (elim booted [
            | ok n ↦ boot_nodes c raft os peers ids (insert id disk disks) (insert id n ns)
            | err f ↦ (insert id disk disks, err (boot_error id f))
          ])
            ≡ (disks', ok ms)
          → Distinct ms
      go disk (ok n) rest h = rest n h
      go disk (err f) rest h = absurd (ground arith)

  -- A cluster that newPersistentCluster makes has one entry for each node.
  pub new_persistent_cluster-Distinct :
      (os : Os) (ids : List ℕ) (disks disks' : Map ℕ Disk) (ms : Cluster S H)
      → new_persistent_cluster c raft os ids disks ≡ (disks', ok ms)
      → Distinct ms
  unfolding new_persistent_cluster
  new_persistent_cluster-Distinct os ids disks disks' ms e =
      boot_nodes-Distinct os ids ids disks disks' [] ms e tt
