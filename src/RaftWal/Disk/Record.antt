-- ===== src/RaftWal/Disk/Record.antt =====
-- A line that appendWAL writes is read back by `load` as the hard state and the entries.
use go_by_example.Prelude.{
  sym, ap, ◌∙◌, ◌≡◌, refl, sym, ap, ◌∙◌, ◌≢◌, ◌⊎◌, inl, inr, true, false, some, List, [], ◌∷◌, ◌++◌,
  ok, if◌then◌else◌, All, arith, Bool-cases, Option-cases, Result-cases,
}
use go_by_example.RaftWal.Base64
use go_by_example.RaftWal.Base64.{Bytes, decode-encode, encode-ne-nil}
use go_by_example.RaftWal.Messages.{HardState, Entry, BootState, Codec, CodecLaws, NoBreak}
use go_by_example.RaftWal.Disk.Lines.{
  trim, trim-braced, drop_cr-braced, NoBreak-braced, braced, drop_cr,
}
use go_by_example.RaftWal.Disk.{
  encode_entries, encode_hard, encode_entry, record_line, load_entries, load_hard, load_record,
  load_line, read_entry, read_hard,
}

module _ (c : Codec) where
  -- what reading the entries `es` does to the state
  unfoldable pub grow : List Entry → BootState → BootState
  grow [] st = st
  grow (e ∷ es) st = grow es (record st { entries = st.entries ++ e ∷ []; has_state = true })

  module _ (laws : CodecLaws c) where
    read_entry-encode : (e : Entry) (s : Bytes) → encode_entry c e ≡ ok s → read_entry c s ≡ ok e
    unfolding encode_entry read_entry
    read_entry-encode e s h = elim (Option-cases (c.marshal_entry e)) [
      | inl n ↦ ground arith
      | inr (b, m) ↦
          ground (arith, laws.entry_round e b m, decode-encode b (laws.entry_bytes e b m))
    ]

    load_entries-encode :
        (es : List Entry) (ss : List Bytes) (st : BootState)
        → encode_entries c es ≡ ok ss
        → load_entries c ss st ≡ ok (grow es st)
    unfolding encode_entries load_entries grow
    load_entries-encode [] ss st h = ground arith
    load_entries-encode (e ∷ es) ss st h = elim (Result-cases (encode_entry c e)) [
      | inl (s, p) ↦ elim (Result-cases (encode_entries c es)) [
        | inl (rest, q) ↦ ground (
          arith,
          read_entry-encode e s p,
          load_entries-encode es rest
              (record st { entries = st.entries ++ e ∷ []; has_state = true }) q,
        )
        | inr (f, q) ↦ ground arith
      ]
      | inr (f, p) ↦ ground arith
    ]

    load_hard-cons :
        (s : Bytes) (h : HardState) (st : BootState)
        → s ≢ []
        → read_hard c s ≡ ok h
        → load_hard c s st ≡ ok (record st { hard = h; has_state = true })
    unfolding load_hard
    load_hard-cons [] h st n e = absurd (n refl)
    load_hard-cons (b ∷ s) h st n e = rw e

    load_hard-encode :
        (h : HardState) (s : Bytes) (st : BootState)
        → encode_hard c h ≡ ok s
        → load_hard c s st ≡ ok (record st { hard = h; has_state = true })
    unfolding encode_hard read_hard
    load_hard-encode h s st e = elim (Option-cases (c.marshal_hard h)) [
      | inl n ↦ ground arith
      | inr (b, m) ↦
          let text : s ≡ Base64.encode b = ground arith in
          let filled : s ≢ [] = rw text (encode-ne-nil b (laws.hard_bytes h b m).1) in
          load_hard-cons s h st filled
            (ground (arith, laws.hard_round h b m, decode-encode b (laws.hard_bytes h b m).0))
    ]

    -- what reading a whole record does to the state
    unfoldable pub replay : HardState → List Entry → BootState → BootState
    unfolding grow
    replay h es st =
        grow es (if c.is_empty_hard h then st else record st { hard = h; has_state = true })

    -- The two fields of the record behind a line.
    abbrev Parts : HardState → List Entry → Bytes → Type 0
    Parts h es l =
        (hs : Bytes) × (ss : List Bytes) × (((c.is_empty_hard h ≡ true) × (hs ≡ []))
          ⊎ ((c.is_empty_hard h ≡ false) × (encode_hard c h ≡ ok hs)))
        × (encode_entries c es ≡ ok ss)
        × (c.marshal_record (record { hard_state = hs; entries = ss }) ≡ some l)

    record_of_parts :
        (h : HardState) (es : List Entry) (l : Bytes) (hs : Bytes)
        → (if c.is_empty_hard h then ok [] else encode_hard c h) ≡ ok hs
        → record_line c h es ≡ ok l
        → (ss : List Bytes) × (encode_entries c es ≡ ok ss)
          × (c.marshal_record (record { hard_state = hs; entries = ss }) ≡ some l)
    unfolding record_line
    record_of_parts h es l hs p e = elim (Result-cases (encode_entries c es)) [
      | inl (ss, q) ↦
          elim (Option-cases (c.marshal_record (record { hard_state = hs; entries = ss }))) [
            | inl n ↦ ground arith
            | inr (b, m) ↦ (ss, q, ground arith)
          ]
      | inr (f, q) ↦ ground arith
    ]

    record_line-Parts :
        (h : HardState) (es : List Entry) (l : Bytes) → record_line c h es ≡ ok l → Parts h es l
    unfolding record_line
    record_line-Parts h es l e = elim (Bool-cases (c.is_empty_hard h)) [
      | inl t ↦ let (ss, q, m) = record_of_parts h es l [] (rw t) e in ([], ss, inl (t, refl), q, m)
      | inr t ↦ elim (Result-cases (encode_hard c h)) [
        | inl (hs, p) ↦
            let (ss, q, m) = record_of_parts h es l hs (rw t p) e in (hs, ss, inr (t, p), q, m)
        | inr (f, p) ↦ ground arith
      ]
    ]

    load_hard-field :
        (h : HardState) (hs : Bytes) (st : BootState)
        → (((c.is_empty_hard h ≡ true) × (hs ≡ []))
            ⊎ ((c.is_empty_hard h ≡ false) × (encode_hard c h ≡ ok hs)))
        → load_hard c hs st
          ≡ ok (if c.is_empty_hard h then st else record st { hard = h; has_state = true })
    unfolding load_hard
    load_hard-field h hs st (inl (t, n)) = rw (t, n)
    load_hard-field h hs st (inr (t, e)) = rw t (load_hard-encode h hs st e)

    load_record-line :
        (h : HardState) (es : List Entry) (l : Bytes) (st : BootState)
        → record_line c h es ≡ ok l
        → load_record c l st ≡ ok (replay h es st)
    unfolding load_record replay
    load_record-line h es l st e =
        let (hs, ss, field, q, m) = record_line-Parts h es l e in
        let st' = if c.is_empty_hard h then st else record st { hard = h; has_state = true } in
        rw (laws.record_round (record { hard_state = hs; entries = ss }) l m)
          (rw (load_hard-field h hs st field) (load_entries-encode es ss st' q))

    -- A line of the log is read as it stands.
    pub load_line-line :
        (h : HardState) (es : List Entry) (l : Bytes) (st : BootState)
        → record_line c h es ≡ ok l
        → load_line c (trim (drop_cr l)) st ≡ ok (replay h es st)
    unfolding load_line
    load_line-line h es l st e =
        let (hs, ss, field, q, m) = record_line-Parts h es l e in
        let (inner, shape, clean) =
          laws.record_braces (record { hard_state = hs; entries = ss }) l m in
        let kept : trim (drop_cr l) ≡ braced inner =
          ap (λ x. trim (drop_cr x)) shape ∙ ap trim (drop_cr-braced inner) ∙ trim-braced inner in
        rw kept (ap (λ x. load_record c x st) (sym shape) ∙ load_record-line h es l st e)

    pub line_clean :
        (h : HardState) (es : List Entry) (l : Bytes) → record_line c h es ≡ ok l → All NoBreak l
    line_clean h es l e =
        let (hs, ss, field, q, m) = record_line-Parts h es l e in
        let (inner, shape, clean) =
          laws.record_braces (record { hard_state = hs; entries = ss }) l m in
        rw shape (NoBreak-braced inner clean)
