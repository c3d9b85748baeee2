-- ===== src/RaftWal/Disk/Reload.antt =====
-- What `load` reads back after a history of appendWAL and saveSnapshot.
use go_by_example.Prelude.{
  ◌≡◌, refl, sym, ap, ◌∙◌, ◌⊎◌, inl, inr, Bool, true, false, not, ◌||◌, Option, none, some, List,
  [], ◌∷◌, ◌++◌, ok, arith, Bool-cases, eqb, keep, ltb,
}
use mathlib.Core.List.{append-nil, append_assoc}
use go_by_example.RaftWal.Base64.{Bytes}
use go_by_example.RaftWal.Messages.{
  HardState, Entry, Snapshot, BootState, zero_snapshot, Codec, CodecLaws,
}
use go_by_example.RaftWal.Disk.Writes.{
  Written, append_wal-Appends, save_snapshot-Saves, Runs-Written,
}
use go_by_example.RaftWal.Disk.Record.{grow, replay, load_line-line, line_clean}
use go_by_example.RaftWal.Disk.History.{
  Event, appended, saved, Runs, done, append, save, last_hard, logged, any_appended, last_snapshot,
  fresh, uncovered, recovered,
}
use go_by_example.RaftWal.Disk.Lines.{scan, scan-line, scan-nil}
use go_by_example.RaftWal.Disk.{
  Disk, Os, contents, load, nothing_new, ensure_dir, load_lines, load_snapshot, load_wal,
  load_files, after_snapshot, empty_boot,
}

module _ (c : Codec) where
  -- the snapshot file holds `s`, or is missing and `s` is the empty snapshot
  abbrev SnapshotIs : Snapshot → Option Bytes → Type 0
  SnapshotIs s o =
      ((o ≡ none) × (s ≡ zero_snapshot))
      ⊎ ((raw : Bytes) × (o ≡ some raw) × (c.unmarshal_snapshot raw ≡ some s))

  module _ (laws : CodecLaws c) where
    Runs-SnapshotIs :
        {e d : Disk} {log : List Event} (s : Snapshot)
        → Runs c e d log
        → SnapshotIs s d.snap
        → SnapshotIs (last_snapshot c s log) e.snap
    unfolding last_snapshot
    Runs-SnapshotIs s done h = h
    Runs-SnapshotIs {d} s (append {d' = d'} {h} {es} os step r) holds =
        elim (append_wal-Appends c os d d' h es step) [
          | inl (idle, same) ↦ Runs-SnapshotIs s r (rw same holds)
          | inr (l, line, grew, kept) ↦ Runs-SnapshotIs s r (rw kept holds)
        ]
    Runs-SnapshotIs {d} s (save {d' = d'} {s = s'} os step r) holds =
        elim (save_snapshot-Saves c os d d' s' step) [
          | inl (idle, same) ↦ rw idle (Runs-SnapshotIs s r (rw same holds))
          | inr (raw, full, m, put, kept) ↦
              rw full (Runs-SnapshotIs s' r (inr (raw, put, laws.snapshot_round s' raw m)))
        ]

    some_read : List Entry → Bool
    some_read [] = false
    some_read (_ ∷ _) = true

    grow_lem :
        (es : List Entry) (st : BootState)
        → grow c es st
          ≡ record st { entries = st.entries ++ es; has_state = st.has_state || some_read es }
    unfolding grow some_read
    grow_lem [] st = ground (arith, append-nil st.entries)
    grow_lem (e ∷ es) st =
        grow_lem es (record st { entries = st.entries ++ e ∷ []; has_state = true })
        ∙ ground (arith, append_assoc st.entries (e ∷ []) es)

    -- the state after the calls of a history are read
    abbrev Read : BootState → List Event → BootState
    Read st log = record st {
      hard = last_hard c st.hard log;
      entries = st.entries ++ logged c log;
      has_state = st.has_state || any_appended c log;
    }

    Read-appended :
        (h : HardState) (es : List Entry) (log : List Event) (st : BootState)
        → Read (replay c laws h es st) log ≡ Read st (appended h es ∷ log)
    unfolding replay grow last_hard logged any_appended some_read
    Read-appended h [] log st = elim (Bool-cases (c.is_empty_hard h)) [
      | inl t ↦ rw t (ground arith)
      | inr t ↦ rw t (ground arith)
    ]
    Read-appended h (e ∷ es) log st = elim (Bool-cases (c.is_empty_hard h)) [
      | inl t ↦ rw t (
          ap (λ s. Read s log) (grow_lem (e ∷ es) st)
          ∙ ground (arith, append_assoc st.entries (e ∷ es) (logged c log)))
      | inr t ↦ rw t (
          ap (λ s. Read s log) (grow_lem (e ∷ es) (record st { hard = h; has_state = true }))
          ∙ ground (arith, append_assoc st.entries (e ∷ es) (logged c log)))
    ]

    load_lines-lines :
        (log : List Event) (t : Bytes) (st : BootState)
        → Written c log t
        → (scan t).too_long ≡ false
        → load_lines c (scan t).lines st ≡ ok (Read st log)
    unfolding load_lines nothing_new last_hard logged any_appended
    load_lines-lines [] t st w short = rw (w, scan-nil) (ground (arith, append-nil st.entries))
    load_lines-lines (saved s ∷ log) t st w short = load_lines-lines log t st w short
    load_lines-lines (appended h [] ∷ log) t st (inl (idle, w)) short =
        rw idle (load_lines-lines log t st w short)
    load_lines-lines (appended h (e ∷ es) ∷ log) t st (inl (idle, w)) short = ground arith
    load_lines-lines (appended h es ∷ log) t st (inr (l, u, line, shape, w)) short =
        let (short', first) = scan-line l u (line_clean c laws h es l line) (rw shape at short) in
        rw (shape, first)
          (rw (load_line-line c laws h es l st line) (
            load_lines-lines log u (replay c laws h es st) w short'
            ∙ ap ok (Read-appended h es log st)))

    empty_snap : (s : Snapshot) → c.is_empty_snap s ≡ eqb s.index 0
    empty_snap s = ground (arith, laws.empty_snap_zero s)

    load_snapshot-SnapshotIs :
        (os : Os) (s : Snapshot) (o : Option Bytes)
        → os.reads_snap ≡ true
        → SnapshotIs s o
        → load_snapshot c os o empty_boot
          ≡ ok (record empty_boot { snapshot = s; has_state = not (eqb s.index 0) })
    unfolding load_snapshot
    load_snapshot-SnapshotIs os s o reads (inl (missing, zero)) = rw (missing, zero) (ground arith)
    load_snapshot-SnapshotIs os s o reads (inr (raw, there, m)) =
        rw there (ground (arith, m, empty_snap s))

    after_snapshot-uncovered :
        (st : BootState)
        → after_snapshot c st ≡ record st { entries = uncovered c st.snapshot st.entries }
    unfolding after_snapshot uncovered
    after_snapshot-uncovered st = ground (arith, empty_snap st.snapshot)

    after_snapshot-nil : (st : BootState) → st.entries ≡ [] → after_snapshot c st ≡ st
    unfolding after_snapshot
    after_snapshot-nil st e = elim (Bool-cases (c.is_empty_snap st.snapshot)) [
      | inl t ↦ rw t
      | inr t ↦ rw t (λ i. record st { entries = kept i })
    ]
      where
        kept : keep (λ (x : Entry). ltb st.snapshot.index x.index) st.entries ≡ st.entries
        kept = rw e

    -- A missing log is read like an empty one.
    load_wal-contents :
        (os : Os) (o : Option Bytes) (st st' : BootState)
        → os.reads_wal ≡ true
        → st.entries ≡ []
        → (scan (contents o)).too_long ≡ false
        → load_lines c (scan (contents o)).lines st ≡ ok st'
        → load_wal c os o st ≡ ok (after_snapshot c st')
    unfolding load_wal load_lines
    load_wal-contents os none st st' reads nothing short e =
        let same : st ≡ st' = ground arith in
        rw reads (ap ok (sym (after_snapshot-nil st nothing) ∙ ap (after_snapshot c) same))
    load_wal-contents os (some text) st st' reads nothing short e = rw (reads, e, short)

    -- After a history of successful calls of appendWAL and saveSnapshot on a fresh directory that
    -- leaves each line of the log shorter than 8 MiB, load, if its own calls of the operating system
    -- succeed, finds the last hard state and the last snapshot that are not empty, and all entries past
    -- it.
    pub reload :
        {e : Disk} (log : List Event) (os : Os)
        → Runs c e fresh log
        → os.mkdir ≡ true
        → os.reads_snap ≡ true
        → os.reads_wal ≡ true
        → (scan (contents e.wal)).too_long ≡ false
        → (load c os e).1 ≡ ok (recovered c log)
    unfolding load load_files recovered ensure_dir
    reload {e} log os r up reads_snap reads_wal short =
        let (t, whole, w) = Runs-Written c r in
        let held = Runs-SnapshotIs zero_snapshot r (inl (refl, refl)) in
        let s = last_snapshot c zero_snapshot log in
        let st = record empty_boot { snapshot = s; has_state = not (eqb s.index 0) } in
        let read = load_lines-lines log t st w (rw whole at short) in
        rw up (
          rw (load_snapshot-SnapshotIs os s e.snap reads_snap held) (
            load_wal-contents os e.wal st (Read st log) reads_wal refl short (rw whole read)
            ∙ ap ok (after_snapshot-uncovered (Read st log))))
