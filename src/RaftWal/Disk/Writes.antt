-- ===== src/RaftWal/Disk/Writes.antt =====
-- What calls of appendWAL and saveSnapshot that succeed leave in the files, one by one and over
-- a history.
use go_by_example.Prelude.{
  ◌≡◌, refl, sym, ap, ◌∙◌, ◌⊎◌, inl, inr, true, false, some, List, [], ◌∷◌, ◌++◌, ok, arith,
  Bool-cases, Option-cases, Result-cases,
}
use mathlib.Core.List.{append-nil, append_assoc}
use go_by_example.RaftWal.Base64.{Bytes}
use go_by_example.RaftWal.Messages.{HardState, Entry, Snapshot, Codec}
use go_by_example.RaftWal.Disk.History.{Event, appended, saved, Runs, done, append, save}
use go_by_example.RaftWal.Disk.{
  Disk, Os, contents, append_wal, save_snapshot, record_line, nothing_new, ensure_dir, write_line,
  append_record, write_snapshot,
}

module _ (c : Codec) where
  -- `t` is the text that the appends of the history write.
  abbrev pub Written : List Event → Bytes → Type 0
  Written [] t = t ≡ []
  Written (saved s ∷ log) t = Written log t
  Written (appended h es ∷ log) t =
      ((nothing_new c h es ≡ true) × Written log t)
      ⊎ ((l : Bytes) × (u : Bytes) × (record_line c h es ≡ ok l)
          × (t ≡ l ++ 10 ∷ u)
          × Written log u)

  -- What a call of appendWAL that succeeds does to the files.
  abbrev pub Appends : Disk → Disk → HardState → List Entry → Type 0
  Appends d d' h es =
      ((nothing_new c h es ≡ true) × (d' ≡ d))
      ⊎ ((l : Bytes) × (record_line c h es ≡ ok l)
          × (contents d'.wal ≡ contents d.wal ++ (l ++ 10 ∷ []))
          × (d'.snap ≡ d.snap))

  pub append_wal-Appends :
      (os : Os) (d d' : Disk) (h : HardState) (es : List Entry)
      → append_wal c os d h es ≡ (d', ok tt)
      → Appends d d' h es
  unfolding append_wal append_record write_line ensure_dir
  append_wal-Appends os d d' h es e = elim (Bool-cases (nothing_new c h es)) [
    | inl t ↦ inl (t, ground arith)
    | inr t ↦ elim (Result-cases (record_line c h es)) [
      | inl (l, r) ↦ inr (l, r, ground arith, ground arith)
      | inr (f, r) ↦ ground arith
    ]
  ]

  abbrev pub Saves : Disk → Disk → Snapshot → Type 0
  Saves d d' s =
      ((c.is_empty_snap s ≡ true) × (d' ≡ d))
      ⊎ ((raw : Bytes) × (c.is_empty_snap s ≡ false)
          × (c.marshal_snapshot s ≡ some raw)
          × (d'.snap ≡ some raw)
          × (d'.wal ≡ d.wal))

  pub save_snapshot-Saves :
      (os : Os) (d d' : Disk) (s : Snapshot) → save_snapshot c os d s ≡ (d', ok tt) → Saves d d' s
  unfolding save_snapshot write_snapshot ensure_dir
  save_snapshot-Saves os d d' s e = elim (Bool-cases (c.is_empty_snap s)) [
    | inl t ↦ inl (t, ground arith)
    | inr t ↦ elim (Option-cases (c.marshal_snapshot s)) [
      | inl n ↦ ground arith
      | inr (raw, m) ↦ inr (raw, t, m, ground arith, ground arith)
    ]
  ]

  pub Runs-Written :
      {e d : Disk} {log : List Event}
      → Runs c e d log
      → (t : Bytes) × (contents e.wal ≡ contents d.wal ++ t) × Written log t
  Runs-Written {e} done = ([], sym (append-nil _), refl)
  Runs-Written {e} {d} (append {d' = d'} {h} {es} os step r) =
      let (t, whole, w) = Runs-Written r in
      elim (append_wal-Appends os d d' h es step) [
        | inl (idle, same) ↦ (t, rw (← same) whole, inl (idle, w))
        | inr (l, line, grew, kept) ↦ (
          l ++ 10 ∷ t,
          whole
              ∙ ap (λ x. x ++ t) grew
              ∙ append_assoc (contents d.wal) (l ++ 10 ∷ []) t
              ∙ ap (◌++◌ (contents d.wal)) (append_assoc l (10 ∷ []) t),
          inr (l, t, line, refl, w),
        )
      ]
  Runs-Written {e} {d} (save {d' = d'} {s} os step r) =
      let (t, whole, w) = Runs-Written r in
      elim (save_snapshot-Saves os d d' s step) [
        | inl (idle, same) ↦ (t, rw (← same) whole, w)
        | inr (raw, full, m, put, kept) ↦ (t, rw (← kept) whole, w)
      ]
