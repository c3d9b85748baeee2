-- ===== src/TxnRev/Records/Chosen.antt =====
-- Which records readRecordsByMainRevision returns.
use go_by_example.Prelude.{
  ℕ, ◌≡◌, refl, sym, ap, subst, Bool-cases, Option-cases, inl, inr, Option, none, some, List, [],
  ◌∷◌, ◌++◌, Result, ok, err, Result-cases, All, Perm, arith, eqb, ◌∙◌, ◌>>=◌, ◌⊎◌, false,
}
use go_by_example.Prelude.Texts.{Text, utf8, has_prefix, has_prefix_iff}
use go_by_example.Prelude.Sorting.{sort, IsSorted, sort-IsSorted, sort-perm}
use go_by_example.TxnRev.RevKeys.{Revision, decode_revision_key}
use go_by_example.TxnRev.RevKeys.Numbers.{Byte}
use go_by_example.TxnRev.RevKeys.Encoded.{Encodes, encoded-decoded, decode_revision_key_iff}
use go_by_example.TxnRev.Records.{
  KeyValue, RevRecord, Row, Database, ReadError, unmarshal_failed, from_least, visit, visit_key,
  scan, read_records_by_main_revision,
}

module _ (unmarshal : List ℕ → Option KeyValue) (prefix : Text) (target_main : ℕ) where
  abbrev revision : RevRecord → Revision
  revision r = record { main = r.main; sub = r.sub; tombstone = r.tombstone }

  -- the pair is a record of the transaction under the prefix
  abbrev pub Wanted : Row → RevRecord → Type 0
  Wanted row r =
      Encodes row.0 (revision r)
      × (r.main ≡ target_main)
      × (unmarshal row.1 ≡ some r.kv)
      × (rest : List ℕ) × (r.kv.key ≡ utf8 (prefix ++ b'/' ∷ []) ++ rest)

  -- the pair is of the transaction, and its value does not unmarshal
  abbrev pub Broken : Row → Revision → Type 0
  Broken row r = Encodes row.0 r × (r.main ≡ target_main) × (unmarshal row.1 ≡ none)

  -- the wanted records of the pairs, in order, with no broken pair among these
  pub data Chosen : List Row → List RevRecord → Type 0 where
    done : Chosen [] []
    add :
        (row : Row) (rows : List Row) (r : RevRecord) (rs : List RevRecord)
        → Wanted row r
        → Chosen rows rs
        → Chosen (row ∷ rows) (r ∷ rs)
    leave :
        (row : Row) (rows : List Row) (rs : List RevRecord)
        → ((r : RevRecord) → ¬ Wanted row r)
        → ((r : Revision) → ¬ Broken row r)
        → Chosen rows rs
        → Chosen (row ∷ rows) rs

  -- the pairs before the first broken one are chosen from as above
  abbrev pub FirstBroken : List Row → ReadError → Type 0
  FirstBroken rows e =
      (before : List Row) × (row : Row) × (after : List Row) × (r : Revision) × (rs : List
        RevRecord)
      × (rows ≡ before ++ row ∷ after)
      × Chosen before rs
      × Broken row r
      × (e ≡ unmarshal_failed r.main r.sub)

  abbrev Scanned : List Row → Result ReadError (List RevRecord) → Type 0
  Scanned rows (ok rs) = Chosen rows rs
  Scanned rows (err e) = FirstBroken rows e

  leave_row :
      (row : Row) (rows : List Row) (result : Result ReadError (List RevRecord))
      → ((r : RevRecord) → ¬ Wanted row r)
      → ((r : Revision) → ¬ Broken row r)
      → Scanned rows result
      → Scanned (row ∷ rows) result
  leave_row row rows (ok rs) w b h = leave row rows rs w b h
  leave_row row rows (err e) w b (before, other, after, r, rs, same, chosen, broken, is_e) = (
    row ∷ before,
    other,
    after,
    r,
    rs,
    ap (◌∷◌ row) same,
    leave row before rs w b chosen,
    broken,
    is_e,
  )

  add_row :
      (row : Row) (rows : List Row) (result : Result ReadError (List RevRecord)) (r : RevRecord)
      → Wanted row r
      → Scanned rows result
      → Scanned (row ∷ rows) (result >>= λ rs. ok (r ∷ rs))
  add_row row rows (ok rs) r w h = add row rows r rs w h
  add_row row rows (err e) r w (before, other, after, q, rs, same, chosen, broken, is_e) = (
    row ∷ before,
    other,
    after,
    q,
    r ∷ rs,
    ap (◌∷◌ row) same,
    add row before r rs w chosen,
    broken,
    is_e,
  )

  not_of_txn :
      (row : Row) (o : Option Revision)
      → decode_revision_key row.0 ≡ o
      → ((r : Revision) → o ≡ some r → r.main ≡ target_main → ⊥)
      → (r : Revision) → Encodes row.0 r
      → r.main ≡ target_main
      → ⊥
  not_of_txn row o e h r k m = h r (sym e ∙ encoded-decoded row.0 r k) m

  no_change :
      (rows : List Row) (result : Result ReadError (List RevRecord))
      → Scanned rows result
      → Scanned rows (result >>= λ rs. ok rs)
  no_change rows (ok rs) h = h
  no_change rows (err e) h = h

  under_prefix :
      (q kv : KeyValue) (rest : List ℕ)
      → q.key ≡ utf8 (prefix ++ b'/' ∷ []) ++ rest
      → some q ≡ some kv
      → has_prefix kv.key (utf8 (prefix ++ b'/' ∷ [])) ≡ false
      → ⊥
  under_prefix q kv rest starts same apart =
      let same_key : q.key ≡ kv.key = cc in
      absurd (
        ground (
          arith,
          (has_prefix_iff kv.key (utf8 (prefix ++ b'/' ∷ []))).1 (rest, sym same_key ∙ starts),
        ))

  visit_row :
      (row : Row) (rows : List Row) (result : Result ReadError (List RevRecord)) (r : Revision)
      → Encodes row.0 r
      → r.main ≡ target_main
      → Scanned rows result
      → Scanned (row ∷ rows) (visit unmarshal prefix target_main r (unmarshal row.1) result)
  visit_row row rows result r k m h = elim (Option-cases (unmarshal row.1)) [
    | inl e ↦ rw e ([], row, rows, r, [], refl, done, (k, m, e), refl)
    | inr (kv, e) ↦ rw e (elim (Bool-cases (has_prefix kv.key (utf8 (prefix ++ b'/' ∷ [])))) [
      | inl under ↦ rw under (
          add_row row rows result
            (record { main = r.main; sub = r.sub; tombstone = r.tombstone; kv = kv })
            (let (rest, starts) = (has_prefix_iff kv.key (utf8 (prefix ++ b'/' ∷ []))).0 under in
              (k, m, e, rest, starts))
            h)
      | inr apart ↦ rw apart (
          no_change (row ∷ rows) result (
            leave_row row rows result (λ q w. under_prefix q.kv kv w.3 w.4 (sym w.2 ∙ e) apart)
              (λ q w. absurd (cc (w.2, e))) h))
    ])
  ]

  scan_row :
      (row : Row) (rows : List Row) (result : Result ReadError (List RevRecord))
      → All Byte row.0
      → Scanned rows result
      → Scanned
          (row ∷ rows)
          (visit_key unmarshal prefix target_main (decode_revision_key row.0) row.1 result)
  scan_row row rows result h rest = elim (Option-cases (decode_revision_key row.0)) [
    | inl e ↦ rw e (
        leave_row row rows result
          (λ r w. not_of_txn row none e (λ q i m. absurd (cc)) (revision r) w.0 w.1)
          (λ r w. not_of_txn row none e (λ q i m. absurd (cc)) r w.0 w.1) rest)
    | inr (r, e) ↦ rw e (elim (Bool-cases (eqb r.main target_main)) [
      | inl is_target ↦ rw is_target (
          visit_row row rows result r ((decode_revision_key_iff row.0 r h).0 e) (ground arith) rest)
      | inr other ↦ rw other (
          leave_row row rows result
            (λ q w. not_of_txn row (some r) e (λ q i m. ground arith) (revision q) w.0 w.1)
            (λ q w. not_of_txn row (some r) e (λ q i m. ground arith) q w.0 w.1) rest)
    ])
  ]

  scan_lem :
      (rows : List Row)
      → All (λ row. All Byte row.0) rows
      → Scanned rows (scan unmarshal prefix target_main rows)
  unfolding scan
  scan_lem [] h = done
  scan_lem (row ∷ rows) h =
      scan_row row rows (scan unmarshal prefix target_main rows) h.0 (scan_lem rows h.1)

  -- Let the database have a bucket named "key" whose keys are of bytes. Either the program returns
  -- the records of the transaction under the prefix: they are those of the pairs that are wanted, each
  -- as often as it occurs, in the signed order of the sub revisions, and no pair of the transaction
  -- fails to unmarshal. Or the first pair of the transaction whose value does not unmarshal is what the
  -- error names.
  pub read_records_lem :
      (db : Database) (rows : List Row)
      → db "key" ≡ some rows
      → All (λ row. All Byte row.0) rows
      → ((rs : List RevRecord) × (found : List RevRecord) × (read_records_by_main_revision unmarshal
              prefix target_main
              (some db)
            ≡ ok rs)
          × Chosen rows found
          × Perm rs found
          × IsSorted (λ r. from_least r.sub) rs)
        ⊎ ((e : ReadError) × (read_records_by_main_revision unmarshal prefix target_main (some db)
              ≡ err e)
            × FirstBroken rows e)
  unfolding read_records_by_main_revision
  read_records_lem db rows here bytes =
      elim (Result-cases (scan unmarshal prefix target_main rows)) [
        | inl (found, e) ↦ inl (
          sort (λ r. from_least r.sub) found,
          found,
          rw (here, e) refl,
          subst (Scanned rows) e (scan_lem rows bytes),
          sort-perm (λ r. from_least r.sub) found,
          sort-IsSorted (λ r. from_least r.sub) found,
        )
        | inr (e, failed) ↦
            inr (e, rw (here, failed) refl, subst (Scanned rows) failed (scan_lem rows bytes))
      ]
