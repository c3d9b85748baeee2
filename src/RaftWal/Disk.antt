-- ===== src/RaftWal/Disk.antt =====
-- diskStorage of etcd/raft-wal-restart/main.go: appendWAL, saveSnapshot and load, over the files of
-- one node's directory. Each call of the operating system may fail.
pub mod Lines
pub mod History
pub mod Record
pub mod Writes
pub mod Reload
pub mod SnapshotFile
use go_by_example.Prelude.{
  ℕ, zero, suc, ◌+◌, ◌≤◌, ◌≡◌, Bool, true, false, not, ◌&&◌, Option, none, some, List, [], ◌∷◌,
  ◌++◌, Result, ok, err, ◌>>=◌, ◌>>◌, or_fail, if◌then◌else◌, take, keep, leb, ltb, length, ◌||◌,
}
use go_by_example.RaftWal.Base64
use go_by_example.RaftWal.Base64.{Bytes}
use go_by_example.RaftWal.Messages.{
  HardState, Entry, Snapshot, WalRecord, BootState, zero_hard, zero_snapshot, Codec,
}
use Lines.{scan, trim}

-- The files of the directory; `none` is a file that does not exist.
pub record Disk : Type 0 where
  pub dir : Bool
  pub wal : Option Bytes
  pub snap : Option Bytes
  pub tmp : Option Bytes

pub data Error : Type 0 where
  mkdir_failed open_failed write_failed rename_failed read_failed : Error
  encode_failed decode_snapshot decode_wal_line decode_hard decode_entry line_too_long : Error

-- What the operating system does in one call of a method: which calls succeed, and how many bytes
-- a failed write leaves in the file.
pub record Os : Type 0 where
  pub mkdir : Bool
  pub opens : Bool
  pub writes : Bool
  pub renames : Bool
  pub reads_snap : Bool
  pub reads_wal : Bool
  pub written : ℕ

abbrev pub healthy : Os
healthy = record {
  mkdir = true;
  opens = true;
  writes = true;
  renames = true;
  reads_snap = true;
  reads_wal = true;
  written = 0;
}

abbrev pub contents : Option Bytes → Bytes
contents none = []
contents (some b) = b

abbrev pub empty_boot : BootState
empty_boot = record { has_state = false; hard = zero_hard; entries = []; snapshot = zero_snapshot }

module _ (c : Codec) where
  -- encodeProto, for the two types that it is called at
  encode_hard : HardState → Result Error Bytes
  encode_hard h = do b ← or_fail (c.marshal_hard h) encode_failed; ok (Base64.encode b)

  encode_entry : Entry → Result Error Bytes
  encode_entry e = do b ← or_fail (c.marshal_entry e) encode_failed; ok (Base64.encode b)

  pub read_hard : Bytes → Result Error HardState
  read_hard s = do
    b ← or_fail (Base64.decode s) decode_hard
    or_fail (c.unmarshal_hard b) decode_hard

  pub read_entry : Bytes → Result Error Entry
  read_entry s = do
    b ← or_fail (Base64.decode s) decode_entry
    or_fail (c.unmarshal_entry b) decode_entry

  encode_entries : List Entry → Result Error (List Bytes)
  encode_entries [] = ok []
  encode_entries (e ∷ es) = do b ← encode_entry e; bs ← encode_entries es; ok (b ∷ bs)

  -- the line that appendWAL writes, without its line break
  pub record_line : HardState → List Entry → Result Error Bytes
  unfolding encode_hard encode_entry encode_entries
  record_line hard entries = do
    h ← if c.is_empty_hard hard then ok [] else encode_hard hard
    es ← encode_entries entries
    or_fail (c.marshal_record (record { hard_state = h; entries = es })) encode_failed

  pub nothing_new : HardState → List Entry → Bool
  nothing_new hard [] = c.is_empty_hard hard
  nothing_new hard (_ ∷ _) = false

  ensure_dir : Os → Disk → Disk × Result Error (Unit {0})
  ensure_dir os d = if os.mkdir then (record d { dir = true }, ok tt) else (d, err mkdir_failed)

  write_line : Os → Disk → Bytes → Disk × Result Error (Unit {0})
  write_line os d line =
      let whole = line ++ 10 ∷ [] in
      if os.opens
      then (if os.writes then (record d { wal = some (contents d.wal ++ whole) }, ok tt) else (
        record d { wal = some (contents d.wal ++ take os.written whole) },
        err write_failed,
      ))
      else (d, err open_failed)

  append_record : Os → Disk → Result Error Bytes → Disk × Result Error (Unit {0})
  unfolding write_line
  append_record os d (ok line) = write_line os d line
  append_record os d (err e) = (d, err e)

  unfoldable pub append_wal : Os → Disk → HardState → List Entry → Disk × Result Error (Unit {0})
  unfolding nothing_new ensure_dir append_record record_line
  append_wal os d hard entries =
      if nothing_new hard entries
      then (d, ok tt)
      else if os.mkdir
      then append_record os (ensure_dir os d).0 (record_line hard entries)
      else (d, err mkdir_failed)

  write_snapshot : Os → Disk → Option Bytes → Disk × Result Error (Unit {0})
  write_snapshot os d none = (d, err encode_failed)
  write_snapshot os d (some raw) =
      if os.opens
      then (if os.writes
          then (if os.renames
              then (record d { tmp = none; snap = some raw }, ok tt)
              else (record d { tmp = some raw }, err rename_failed))
          else (record d { tmp = some (take os.written raw) }, err write_failed))
      else (d, err open_failed)

  unfoldable pub save_snapshot : Os → Disk → Snapshot → Disk × Result Error (Unit {0})
  unfolding ensure_dir write_snapshot
  save_snapshot os d s =
      if c.is_empty_snap s
      then (d, ok tt)
      else if os.mkdir
      then write_snapshot os (ensure_dir os d).0 (c.marshal_snapshot s)
      else (d, err mkdir_failed)

  load_snapshot : Os → Option Bytes → BootState → Result Error BootState
  load_snapshot os none state = if os.reads_snap then ok state else err read_failed
  load_snapshot os (some raw) state =
      if os.reads_snap
      then (do
        s ← or_fail (c.unmarshal_snapshot raw) decode_snapshot
        ok (record state { snapshot = s; has_state = state.has_state || not (c.is_empty_snap s) }))
      else err read_failed

  unfoldable pub load_entries : List Bytes → BootState → Result Error BootState
  unfolding read_entry
  load_entries [] state = ok state
  load_entries (s ∷ ss) state = do
    e ← read_entry s
    load_entries ss (record state { entries = state.entries ++ e ∷ []; has_state = true })

  load_hard : Bytes → BootState → Result Error BootState
  unfolding read_hard
  load_hard [] state = ok state
  load_hard (b ∷ s) state = do
    h ← read_hard (b ∷ s)
    ok (record state { hard = h; has_state = true })

  pub load_record : Bytes → BootState → Result Error BootState
  unfolding load_hard load_entries
  load_record line state = do
    r ← or_fail (c.unmarshal_record line) decode_wal_line
    st ← load_hard r.hard_state state
    load_entries r.entries st

  -- a blank line is skipped
  pub load_line : Bytes → BootState → Result Error BootState
  unfolding load_record
  load_line [] state = ok state
  load_line (b ∷ line) state = load_record (b ∷ line) state

  load_lines : List Bytes → BootState → Result Error BootState
  unfolding load_line trim
  load_lines [] state = ok state
  load_lines (l ∷ ls) state = do st ← load_line (trim l) state; load_lines ls st

  -- the entries that the snapshot covers are dropped
  after_snapshot : BootState → BootState
  after_snapshot st =
      if c.is_empty_snap st.snapshot
      then st
      else record st { entries = keep (λ (e : Entry). ltb st.snapshot.index e.index) st.entries }

  load_wal : Os → Option Bytes → BootState → Result Error BootState
  unfolding load_lines after_snapshot scan
  load_wal os none state = if os.reads_wal then ok state else err read_failed
  load_wal os (some text) state =
      if os.reads_wal
      then (do
        st ← load_lines (scan text).lines state
        if (scan text).too_long then err line_too_long else ok (after_snapshot st))
      else err read_failed

  load_files : Os → Disk → Result Error BootState
  unfolding load_snapshot load_wal
  load_files os d = do st ← load_snapshot os d.snap empty_boot; load_wal os d.wal st

  unfoldable pub load : Os → Disk → Disk × Result Error BootState
  unfolding ensure_dir load_files
  load os d =
      if os.mkdir
      then ((ensure_dir os d).0, load_files os (ensure_dir os d).0)
      else (d, err mkdir_failed)
