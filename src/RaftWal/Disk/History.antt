-- ===== src/RaftWal/Disk/History.antt =====
-- Histories of calls of appendWAL and saveSnapshot, and what a restart ought to find.
use go_by_example.Prelude.{
  ◌≡◌, Bool, true, false, not, ◌||◌, none, List, [], ◌∷◌, ◌++◌, ok, if◌then◌else◌, ltb, eqb, keep,
}
use go_by_example.RaftWal.Messages.{
  HardState, Entry, Snapshot, Codec, zero_snapshot, zero_hard, BootState,
}
use go_by_example.RaftWal.Disk.{Disk, Os, append_wal, save_snapshot}

pub data Event : Type 0 where
  appended : HardState → List Entry → Event
  saved : Snapshot → Event

-- a directory that does not exist yet
abbrev pub fresh : Disk
fresh = record { dir = false; wal = none; snap = none; tmp = none }

module _ (c : Codec) where
  -- A history of calls that all return without an error, under an operating system of any mood.
  pub data Runs (e : Disk) : Disk → List Event → Type 0 where
    done : Runs e e []
    append :
        {d d' : Disk} {h : HardState} {es : List Entry} {log : List Event} (os : Os)
        → append_wal c os d h es ≡ (d', ok tt)
        → Runs e d' log
        → Runs e d (appended h es ∷ log)
    save :
        {d d' : Disk} {s : Snapshot} {log : List Event} (os : Os)
        → save_snapshot c os d s ≡ (d', ok tt)
        → Runs e d' log
        → Runs e d (saved s ∷ log)

  -- the last hard state that is not empty
  unfoldable pub last_hard : HardState → List Event → HardState
  last_hard h [] = h
  last_hard h (appended g es ∷ log) = last_hard (if c.is_empty_hard g then h else g) log
  last_hard h (saved s ∷ log) = last_hard h log

  -- all entries, in the order of the calls
  unfoldable pub logged : List Event → List Entry
  logged [] = []
  logged (appended h es ∷ log) = es ++ logged log
  logged (saved s ∷ log) = logged log

  -- whether anything was appended
  unfoldable pub any_appended : List Event → Bool
  any_appended [] = false
  any_appended (appended h [] ∷ log) = not (c.is_empty_hard h) || any_appended log
  any_appended (appended h (_ ∷ _) ∷ log) = true
  any_appended (saved s ∷ log) = any_appended log

  -- the last snapshot that is not empty
  unfoldable pub last_snapshot : Snapshot → List Event → Snapshot
  last_snapshot t [] = t
  last_snapshot t (appended h es ∷ log) = last_snapshot t log
  last_snapshot t (saved s ∷ log) = last_snapshot (if c.is_empty_snap s then t else s) log

  -- the entries after the snapshot; index 0 is no snapshot
  unfoldable pub uncovered : Snapshot → List Entry → List Entry
  uncovered s es = if eqb s.index 0 then es else keep (λ (e : Entry). ltb s.index e.index) es

  -- what a restart ought to find after a history of calls on a fresh directory
  unfoldable pub recovered : List Event → BootState
  recovered log =
      let s = last_snapshot zero_snapshot log in
      record {
        has_state = not (eqb s.index 0) || any_appended log;
        hard = last_hard zero_hard log;
        entries = uncovered s (logged log);
        snapshot = s;
      }
