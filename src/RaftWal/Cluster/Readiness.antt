-- ===== src/RaftWal/Cluster/Readiness.antt =====
-- The Ready branch of `run` in etcd/raft-wal-restart/main.go, on the cluster: the node stores what
-- raft hands over, the messages are delivered, and the node applies the committed entries.
use go_by_example.Prelude.{
  ℕ, String, true, comparable_string, ◌≡◌, refl, ap, ◌∙◌, Option, none, some, List, [], ◌∷◌, lookup,
  insert, comparable_number, lookup-insert, lookup-insert_self, arith, Option-cases, Bool-cases,
  eqb, inl, inr,
}
use go_by_example.RaftWal.Messages.{Codec}
use go_by_example.RaftWal.Disk.{Os}
use go_by_example.RaftWal.Node.{RaftLib, RaftNode, Ready}
use go_by_example.RaftWal.Node.Loop.{store_ready, finish_ready}
use go_by_example.RaftWal.Node.Committed.{last_write, or_else}
use go_by_example.RaftWal.Node.Persistence.{store_ready-kv, finish_ready-lookup}
use go_by_example.RaftWal.Cluster.{Cluster, Transport, receive, deliver}

module _ {S H C M : Type 0} (c : Codec) (raft : RaftLib S H C) (t : Transport H M) where
  unfoldable pub finish_found : Os → ℕ → Ready M → Option (RaftNode S H) → Cluster S H → Cluster S H
  unfolding finish_ready
  finish_found own id rd none ns = ns
  finish_found own id rd (some n) ns = insert id (finish_ready c raft own rd n) ns

  unfoldable pub ready_found :
      (snap wal own : Os) → ℕ → Ready M → Option (RaftNode S H) → Cluster S H → Cluster S H
  unfolding store_ready finish_found
  ready_found snap wal own id rd none ns = ns
  ready_found snap wal own id rd (some n) ns =
      let sent = deliver t rd.messages (insert id (store_ready c raft snap wal rd n) ns) in
      finish_found own id rd (lookup id sent) sent

  -- the Ready branch of `run` of the node with this id
  unfoldable pub handle_ready : (snap wal own : Os) → ℕ → Ready M → Cluster S H → Cluster S H
  unfolding ready_found
  handle_ready snap wal own id rd ns = ready_found snap wal own id rd (lookup id ns) ns

module _ {S H M : Type 0} (t : Transport H M) where
  -- the node is in the cluster and has these values
  abbrev pub HasValues : ℕ → RaftNode S H → Cluster S H → Type 0
  HasValues id n ns = (m : RaftNode S H) × (lookup id ns ≡ some m) × (m.kv ≡ n.kv)

  receive-HasValues :
      (msg : M) (o : Option (RaftNode S H)) (ns : Cluster S H) (id : ℕ) (n : RaftNode S H)
      → o ≡ lookup (t.target msg) ns
      → lookup id ns ≡ some n
      → HasValues id n (receive t msg o ns)
  unfolding receive
  receive-HasValues msg none ns id n found there = (n, there, refl)
  receive-HasValues msg (some r) ns id n found there = elim (Bool-cases r.stopped) [
    | inl e ↦ rw e (n, there, refl)
    | inr e ↦ elim (Option-cases (t.step msg r.node)) [
      | inl refused ↦ rw (e, refused) (n, there, refl)
      | inr (node, stepped) ↦
          let after = lookup-insert (t.target msg) id (record r { node = node }) ns in
          elim (Bool-cases (eqb (t.target msg) id)) [
            | inl same ↦ rw (e, stepped) (record r { node = node }, ground arith, ground arith)
            | inr other ↦ rw (e, stepped) (n, ground arith, refl)
          ]
    ]
  ]

  -- Delivering messages keeps every node with its values.
  pub deliver-HasValues :
      (ms : List M) (ns : Cluster S H) (id : ℕ) (n : RaftNode S H)
      → lookup id ns ≡ some n
      → HasValues id n (deliver t ms ns)
  unfolding deliver
  deliver-HasValues [] ns id n there = (n, there, refl)
  deliver-HasValues (msg ∷ ms) ns id n there =
      let o = lookup (t.target msg) ns in
      let (m, there', same) = receive-HasValues msg o ns id n refl there in
      let (k, there'', same') = deliver-HasValues ms (receive t msg o ns) id m there' in
      (k, there'', same' ∙ same)

module _ {S H C M : Type 0} (c : Codec) (raft : RaftLib S H C) (t : Transport H M) where
  -- The committed entries of a Ready without a snapshot are applied whatever the disk does, and
  -- whatever messages are delivered before that: in the node that handles it, a key that they write
  -- has its new value also when persistReady failed, and every other key its old one.
  pub handle_ready-lookup :
      (snap wal own : Os) (id : ℕ) (rd : Ready M) (ns : Cluster S H) (n : RaftNode S H) (k : String)
      → lookup id ns ≡ some n
      → c.is_empty_snap rd.snapshot ≡ true
      → (m : RaftNode S H) × (lookup id (handle_ready c raft t snap wal own id rd ns) ≡ some m)
        × (lookup k m.kv ≡ or_else (last_write c k rd.committed) (lookup k n.kv))
  unfolding handle_ready ready_found finish_found
  handle_ready-lookup snap wal own id rd ns n k there empty =
      let stored = store_ready c raft snap wal rd n in
      let (m, found, kept) =
        deliver-HasValues t rd.messages (insert id stored ns) id stored
          (lookup-insert_self id stored ns) in
      let sent = deliver t rd.messages (insert id stored ns) in
      (
        finish_ready c raft own rd m,
        rw (there, found) (lookup-insert_self id (finish_ready c raft own rd m) sent),
        finish_ready-lookup c raft own rd m k
            ∙ ap (λ kv. or_else (last_write c k rd.committed) (lookup k kv))
                (kept ∙ store_ready-kv c raft snap wal rd n empty),
      )
