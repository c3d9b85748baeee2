-- ===== src/RaftWal/Node/Recovery.antt =====
-- When maybeSnapshot takes a snapshot, and what a node that boots from it starts with.
use go_by_example.Prelude.{
  ℕ, ◌≡◌, ◌≢◌, refl, sym, ap, ◌∙◌, ◌⊎◌, inl, inr, ◌-◌, ◌≤◌, ◌<◌, ◌+◌, Bool, false, some, List, [],
  String, Result, ok, err, lookup, comparable_string, ltb, leb, eqb, arith, Option-cases,
  Bool-cases, bind_ok, ◌||◌, subst,
}
use go_by_example.RaftWal.Base64.{Bytes}
use go_by_example.RaftWal.Messages.{Codec, CodecLaws, Snapshot, BootState}
use go_by_example.RaftWal.Disk.{Disk, Os, save_snapshot, load}
use go_by_example.RaftWal.Disk
use go_by_example.RaftWal.Disk.SnapshotFile.{save_snapshot_atomic, load-snapshot}
use go_by_example.RaftWal.Node.{RaftLib, RaftLaws, RaftNode}
use go_by_example.RaftWal.Node.Boot.{
  boot, boot_snapshot, boot_entries, fresh_node, new_raft_node, load_error, start-Keeps,
  boot_snapshot-restores, boot_entries-Keeps, load_error_ok,
}
use go_by_example.RaftWal.Node.Snapshots.{
  snapshot_data, keep_snapshot, take_snapshot, maybe_snapshot, compact_log,
}

module _ {S H C : Type 0} (c : Codec) (raft : RaftLib S H C) where
  -- the applied index is less than `snapshotEvery` past the last snapshot
  abbrev pub early : RaftNode S H → Bool
  early n =
      leb n.applied_index n.last_snapshot_index
      || ltb (n.applied_index - n.last_snapshot_index) n.snapshot_every

  -- the step from `n` to `m` wrote a snapshot
  abbrev pub Took : RaftNode S H → RaftNode S H → Type 0
  Took n m =
      (b : Bytes) × (s : Snapshot) × (storage : S) × (raw : Bytes) × (snapshot_data c raft n
        ≡ some b)
      × (raft.create_snapshot n.applied_index n.conf_state b n.storage ≡ some (s, storage))
      × (c.marshal_snapshot s ≡ some raw)
      × (m.disk.snap ≡ some raw)
      × (m.last_snapshot_index ≡ s.index)
      × (early n ≡ false)

  abbrev TookOrNot : RaftNode S H → RaftNode S H → Type 0
  TookOrNot n m = (m.last_snapshot_index ≡ n.last_snapshot_index) ⊎ Took n m

  compact_log-disk :
      (s : Snapshot) (n : RaftNode S H)
      → ((compact_log c raft s n).disk ≡ n.disk)
        × ((compact_log c raft s n).last_snapshot_index ≡ n.last_snapshot_index)
  unfolding compact_log
  compact_log-disk s n = ground arith

  keep_snapshot-cases :
      (s : Snapshot) (r : Disk × Result Disk.Error (Unit {0})) (n : RaftNode S H)
      → ((keep_snapshot c raft s r n).last_snapshot_index ≡ n.last_snapshot_index)
        ⊎ ((r.1 ≡ ok tt)
            × ((keep_snapshot c raft s r n).disk ≡ r.0)
            × ((keep_snapshot c raft s r n).last_snapshot_index ≡ s.index))
  unfolding keep_snapshot
  keep_snapshot-cases s (d, ok u) n =
      let (disk, last) =
        compact_log-disk s (record n { disk = d; last_snapshot_index = s.index }) in
      inr (refl, disk, last)
  keep_snapshot-cases s (d, err e) n = inl refl

  due_pos : (n : RaftNode S H) → early n ≡ false → n.applied_index ≢ 0
  due_pos n e z = ground arith

  -- a node that is due goes on to take a snapshot
  runs :
      (os : Os) (n : RaftNode S H)
      → early n ≡ false
      → maybe_snapshot c raft os n ≡ take_snapshot c raft os (snapshot_data c raft n) n
  unfolding maybe_snapshot
  runs os n e = ground arith

  module _ (laws : CodecLaws c) (rlaws : RaftLaws raft) where
    take_snapshot-Took :
        (os : Os) (b : Bytes) (n : RaftNode S H)
        → early n ≡ false
        → snapshot_data c raft n ≡ some b
        → TookOrNot n (take_snapshot c raft os (some b) n)
    unfolding take_snapshot
    take_snapshot-Took os b n due written =
        elim (Option-cases (raft.create_snapshot n.applied_index n.conf_state b n.storage)) [
          | inl e ↦ rw (e, take_snapshot) (inl refl)
          | inr ((s, storage), e) ↦
              let r = save_snapshot c os n.disk s in
              let m = record n { storage = storage } in
              let at = (rlaws.created n.applied_index n.conf_state b n.storage storage s e).0 in
              rw (e, take_snapshot)
                (elim (keep_snapshot-cases s r m) [
                  | inl same ↦ inl same
                  | inr (done, disk, last) ↦ elim (save_snapshot_atomic c os n.disk s).1 [
                    | inl (_, _, (raw, q, snap)) ↦ inr (
                      b,
                      s,
                      storage,
                      raw,
                      written,
                      e,
                      q,
                      ap (λ (d : Disk). d.snap) disk ∙ snap,
                      last,
                      due,
                    )
                    | inr (inl (_, empty, _)) ↦
                        absurd (due_pos n due (sym at ∙ (laws.empty_snap_zero s).0 empty))
                    | inr (inr (f, failed, _)) ↦ absurd (ground (arith, done, failed))
                  ]
                ])
        ]

    -- A step that moves the snapshot index wrote a snapshot of the state at hand.
    pub maybe_snapshot-Took :
        (os : Os) (n : RaftNode S H) → TookOrNot n (maybe_snapshot c raft os n)
    unfolding maybe_snapshot
    maybe_snapshot-Took os n = elim (Bool-cases (eqb n.applied_index 0)) [
      | inl z ↦ rw z (inl refl)
      | inr nz ↦ elim (Bool-cases (early n)) [
        | inl w ↦ rw (nz, w) (inl refl)
        | inr w ↦ elim (Option-cases (snapshot_data c raft n)) [
          | inl e ↦ rw (nz, w, e, take_snapshot) (inl refl)
          | inr (b, e) ↦
              subst (TookOrNot n) (sym (runs os n w ∙ ap (λ o. take_snapshot c raft os o n) e))
                (take_snapshot-Took os b n w e)
        ]
      ]
    ]

    -- What a node that boots from a snapshot starts with.
    boot-lookup :
        (id : ℕ) (peers : List ℕ) (d : Disk) (state : BootState) (n m : RaftNode S H) (b : Bytes)
        → snapshot_data c raft n ≡ some b
        → state.snapshot.payload ≡ b
        → state.snapshot.index ≡ n.applied_index
        → n.applied_index ≢ 0
        → boot c raft id peers d state ≡ ok m
        → (m.applied_index ≡ n.applied_index) × ((k : String) → lookup k m.kv ≡ lookup k n.kv)
    unfolding boot snapshot_data
    boot-lookup id peers d state n m b written payload index pos h =
        let (kv, e, same) = laws.state_round n.kv n.applied_index b written in
        let text : b ≢ [] = λ empty. laws.state_bytes _ (rw empty at written) in
        let full : c.is_empty_snap state.snapshot ≡ false =
          ground (arith, laws.empty_snap_zero state.snapshot) in
        let (n1, p1, h1) =
          bind_ok (boot_snapshot c raft state.snapshot (fresh_node c raft id d)) _ m h in
        let (n2, p2, h2) = bind_ok (boot_entries c raft state.entries n1) _ m h1 in
        let first =
          boot_snapshot-restores c raft state.snapshot (fresh_node c raft id d) n1 kv
            n.applied_index full (rw payload text) (rw payload e) pos p1 in
        let second = boot_entries-Keeps c raft state.entries n1 n2 p2 in
        let third = start-Keeps c raft state.has_state peers state.hard n2 in
        let kept : m.kv ≡ kv = ground (arith, first, second, third, h2) in
        (ground (arith, first, second, third, h2), λ k. ap (lookup k) kept ∙ same k)

    -- If a step of maybeSnapshot moved the snapshot index, then a node that boots from the files it
    -- left has the values and the applied index of the node that took the snapshot.
    pub snapshot_survives :
        (os os' : Os) (id : ℕ) (peers : List ℕ) (n m : RaftNode S H)
        → (maybe_snapshot c raft os n).last_snapshot_index ≢ n.last_snapshot_index
        → (new_raft_node c raft os' id peers (maybe_snapshot c raft os n).disk).1 ≡ ok m
        → (m.applied_index ≡ n.applied_index) × ((k : String) → lookup k m.kv ≡ lookup k n.kv)
    unfolding new_raft_node
    snapshot_survives os os' id peers n m moved h = elim (maybe_snapshot-Took os n) [
      | inl same ↦ absurd (moved same)
      | inr (b, s, storage, raw, written, e, q, snap, last, due) ↦
          let d = (maybe_snapshot c raft os n).disk in
          let (state, p, booted) = bind_ok (load_error c raft (load c os' d).1) _ m h in
          let read =
            load-snapshot c os' d raw state snap (load_error_ok c raft (load c os' d).1 state p) in
          let same : state.snapshot ≡ s = ground (arith, read, laws.snapshot_round s raw q) in
          let (index, payload) =
            rlaws.created n.applied_index n.conf_state b n.storage storage s e in
          boot-lookup id peers (load c os' d).0 state n m b written
            (ap (λ (x : Snapshot). x.payload) same ∙ payload)
            (ap (λ (x : Snapshot). x.index) same ∙ index) (due_pos n due) booted
    ]

    -- maybeSnapshot moves the snapshot index only when the applied index is `snapshotEvery` or more
    -- past it, and then to the applied index.
    pub maybe_snapshot_due :
        (os : Os) (n : RaftNode S H)
        → let m = maybe_snapshot c raft os n in
          m.last_snapshot_index ≢ n.last_snapshot_index
          → (n.last_snapshot_index + n.snapshot_every ≤ n.applied_index)
            × (m.last_snapshot_index ≡ n.applied_index)
    maybe_snapshot_due os n moved = elim (maybe_snapshot-Took os n) [
      | inl same ↦ absurd (moved same)
      | inr (b, s, storage, raw, written, e, q, snap, last, due) ↦ (
        ground arith,
        last ∙ (rlaws.created n.applied_index n.conf_state b n.storage storage s e).0,
      )
    ]

    -- Such a snapshot is taken when the state can be encoded, raft creates the snapshot and the disk
    -- takes it.
    pub maybe_snapshot_taken :
        (os : Os) (n : RaftNode S H) (b : Bytes) (s : Snapshot) (storage : S) (d : Disk)
        → n.last_snapshot_index < n.applied_index
        → n.last_snapshot_index + n.snapshot_every ≤ n.applied_index
        → snapshot_data c raft n ≡ some b
        → raft.create_snapshot n.applied_index n.conf_state b n.storage ≡ some (s, storage)
        → save_snapshot c os n.disk s ≡ (d, ok tt)
        → ((maybe_snapshot c raft os n).last_snapshot_index ≡ n.applied_index)
          × ((maybe_snapshot c raft os n).disk ≡ d)
    unfolding take_snapshot keep_snapshot
    maybe_snapshot_taken os n b s storage d lt le written e saved =
        let m = record n { storage = storage; disk = d; last_snapshot_index = s.index } in
        let at = (rlaws.created n.applied_index n.conf_state b n.storage storage s e).0 in
        let (disk, last) = compact_log-disk s m in
        let taken : take_snapshot c raft os (some b) n ≡ compact_log c raft s m =
          rw (e, take_snapshot)
            (ap (λ r. keep_snapshot c raft s r (record n { storage = storage })) saved) in
        let whole =
          runs os n (ground arith) ∙ ap (λ o. take_snapshot c raft os o n) written ∙ taken in
        (
          ap (λ (x : RaftNode S H). x.last_snapshot_index) whole ∙ last ∙ at,
          ap (λ (x : RaftNode S H). x.disk) whole ∙ disk,
        )
