-- ===== src/RaftWal/Disk/SnapshotFile.antt =====
-- The snapshot file: saveSnapshot replaces it whole or leaves it, and `load` reads it as it stands.
use go_by_example.Prelude.{
  ◌≡◌, ◌∙◌, ◌⊎◌, inl, inr, true, false, Option, none, some, List, [], ◌∷◌, ok, err, arith,
  Bool-cases, Option-cases, bind_ok, or_fail, sym, ap, subst,
}
use go_by_example.RaftWal.Base64.{Bytes}
use go_by_example.RaftWal.Messages.{Snapshot, BootState, Codec}
use go_by_example.RaftWal.Disk.{
  Disk, Os, Error, save_snapshot, write_snapshot, ensure_dir, load, load_files, load_snapshot,
  load_wal, load_lines, load_line, load_record, load_hard, load_entries, after_snapshot, read_hard,
  read_entry, empty_boot, decode_wal_line,
}
use go_by_example.RaftWal.Disk.Lines.{scan, trim}

module _ (c : Codec) where
  -- Whatever the operating system does, saveSnapshot leaves the log alone; the snapshot file is the
  -- old one if it returns an error, and the whole new one if it returns none for a snapshot that is
  -- not empty.
  pub save_snapshot_atomic :
      (os : Os) (d : Disk) (s : Snapshot)
      → let (d', r) = save_snapshot c os d s in
        (d'.wal ≡ d.wal)
        × (((r ≡ ok tt)
              × (c.is_empty_snap s ≡ false)
              × ((raw : Bytes) × (c.marshal_snapshot s ≡ some raw) × (d'.snap ≡ some raw)))
            ⊎ ((r ≡ ok tt) × (c.is_empty_snap s ≡ true) × (d'.snap ≡ d.snap))
            ⊎ ((e : Error) × (r ≡ err e) × (d'.snap ≡ d.snap)))
  unfolding save_snapshot write_snapshot ensure_dir
  save_snapshot_atomic os d s = elim (Option-cases (c.marshal_snapshot s)) [
    | inl e ↦ ground arith
    | inr (raw, e) ↦ ground arith
  ]

  load_entries-snapshot :
      (ss : List Bytes) (st st' : BootState)
      → load_entries c ss st ≡ ok st'
      → st'.snapshot ≡ st.snapshot
  unfolding load_entries
  load_entries-snapshot [] st st' h = ground arith
  load_entries-snapshot (s ∷ ss) st st' h =
      let (e, _, rest) = bind_ok (read_entry c s) _ st' h in load_entries-snapshot ss _ st' rest

  load_hard-snapshot :
      (s : Bytes) (st st' : BootState) → load_hard c s st ≡ ok st' → st'.snapshot ≡ st.snapshot
  unfolding load_hard
  load_hard-snapshot [] st st' h = ground arith
  load_hard-snapshot (b ∷ s) st st' h =
      let (g, _, rest) = bind_ok (read_hard c (b ∷ s)) _ st' h in ground (arith, rest)

  load_line-snapshot :
      (l : Bytes) (st st' : BootState) → load_line c l st ≡ ok st' → st'.snapshot ≡ st.snapshot
  unfolding load_line load_record
  load_line-snapshot [] st st' h = ground arith
  load_line-snapshot (b ∷ l) st st' h =
      let (r, _, rest) = bind_ok (or_fail (c.unmarshal_record (b ∷ l)) decode_wal_line) _ st' h in
      let (mid, p, q) = bind_ok (load_hard c r.hard_state st) _ st' rest in
      load_entries-snapshot r.entries mid st' q ∙ load_hard-snapshot r.hard_state st mid p

  load_lines-snapshot :
      (ls : List Bytes) (st st' : BootState)
      → load_lines c ls st ≡ ok st'
      → st'.snapshot ≡ st.snapshot
  unfolding load_lines
  load_lines-snapshot [] st st' h = ground arith
  load_lines-snapshot (l ∷ ls) st st' h =
      let (mid, p, q) = bind_ok (load_line c (trim l) st) _ st' h in
      load_lines-snapshot ls mid st' q ∙ load_line-snapshot (trim l) st mid p

  after_snapshot-snapshot : (st : BootState) → (after_snapshot c st).snapshot ≡ st.snapshot
  unfolding after_snapshot
  after_snapshot-snapshot st = ground arith

  load_wal-snapshot :
      (os : Os) (o : Option Bytes) (st st' : BootState)
      → load_wal c os o st ≡ ok st'
      → st'.snapshot ≡ st.snapshot
  unfolding load_wal
  load_wal-snapshot os none st st' h = ground arith
  load_wal-snapshot os (some text) st st' h = elim (Bool-cases os.reads_wal) [
    | inl t ↦
        let (mid, p, q) = bind_ok (load_lines c (scan text).lines st) _ st' (rw t at h) in
        ground
          (arith, q, after_snapshot-snapshot mid, load_lines-snapshot (scan text).lines st mid p)
    | inr t ↦ ground arith
  ]

  load_snapshot-raw :
      (os : Os) (raw : Bytes) (st : BootState)
      → load_snapshot c os (some raw) empty_boot ≡ ok st
      → c.unmarshal_snapshot raw ≡ some st.snapshot
  unfolding load_snapshot
  load_snapshot-raw os raw st h = elim (Option-cases (c.unmarshal_snapshot raw)) [
    | inl e ↦ ground arith
    | inr (s, e) ↦ ground arith
  ]

  -- A snapshot file that exists is what `load` takes the snapshot from.
  pub load-snapshot :
      (os : Os) (d : Disk) (raw : Bytes) (st : BootState)
      → d.snap ≡ some raw
      → (load c os d).1 ≡ ok st
      → c.unmarshal_snapshot raw ≡ some st.snapshot
  unfolding load load_files ensure_dir
  load-snapshot os d raw st there h = elim (Bool-cases os.mkdir) [
    | inl t ↦
        let (mid, p, q) = bind_ok (load_snapshot c os d.snap empty_boot) _ st (rw t at h) in
        load_snapshot-raw os raw mid (subst (λ o. load_snapshot c os o empty_boot ≡ ok mid) there p)
        ∙ ap some (sym (load_wal-snapshot os d.wal mid st q))
    | inr t ↦ ground arith
  ]
