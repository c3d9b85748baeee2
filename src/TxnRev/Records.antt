-- ===== src/TxnRev/Records.antt =====
-- readRecordsByMainRevision of etcd/txn-rev-main-sub/main.go. A database is its buckets, a bucket the
-- pairs that its cursor runs through; opening one, and mvccpb's Unmarshal, are parameters.
pub mod Chosen
use go_by_example.Prelude.{
  ℕ, ◌+◌, ◌%◌, ◌^◌, Bool, Option, none, some, List, [], ◌∷◌, ◌++◌, String, if◌then◌else◌, eqb, not,
  Result, ok, err, or_fail, ◌>>=◌,
}
use go_by_example.Prelude.Texts.{Text, utf8, has_prefix}
use go_by_example.Prelude.Sorting.{sort}
use go_by_example.TxnRev.RevKeys.{Revision, decode_revision_key}

-- mvccpb.KeyValue
pub record KeyValue : Type 0 where
  pub key : List ℕ
  pub value : List ℕ
  pub create_revision : ℕ
  pub mod_revision : ℕ
  pub version : ℕ

pub record RevRecord : Type 0 where
  pub main : ℕ
  pub sub : ℕ
  pub tombstone : Bool
  pub kv : KeyValue

abbrev pub Row : Type 0
Row = List ℕ × List ℕ

abbrev pub Database : Type 0
Database = String → Option (List Row)

pub data ReadError : Type 0 where
  open_failed no_bucket : ReadError
  unmarshal_failed : ℕ → ℕ → ReadError

-- the int64 that is stored as `x`, counted from the least one
abbrev pub from_least : ℕ → ℕ
from_least x = (x + 2 ^ 63) % 2 ^ 64

module _ (unmarshal : List ℕ → Option KeyValue) (prefix : Text) (target_main : ℕ) where
  abbrev pub with_prefix : Revision → KeyValue → List RevRecord → List RevRecord
  with_prefix r kv rest =
      if has_prefix kv.key (utf8 (prefix ++ b'/' ∷ []))
      then record { main = r.main; sub = r.sub; tombstone = r.tombstone; kv = kv } ∷ rest
      else rest

  -- what the body of the loop does with a pair whose value is unmarshalled to `found`
  abbrev pub visit :
      Revision
      → Option KeyValue
      → Result ReadError (List RevRecord)
      → Result ReadError (List RevRecord)
  visit r none rest = err (unmarshal_failed r.main r.sub)
  visit r (some kv) rest = rest >>= λ records. ok (with_prefix r kv records)

  abbrev pub visit_key :
      Option Revision
      → List ℕ
      → Result ReadError (List RevRecord)
      → Result ReadError (List RevRecord)
  visit_key none value rest = rest
  visit_key (some r) value rest =
      if eqb r.main target_main then visit r (unmarshal value) rest else rest

  -- the loop over the cursor
  unfoldable pub scan : List Row → Result ReadError (List RevRecord)
  scan [] = ok []
  scan (row ∷ rows) = visit_key (decode_revision_key row.0) row.1 (scan rows)

  unfoldable pub read_records_by_main_revision : Option Database → Result ReadError (List RevRecord)
  unfolding scan
  read_records_by_main_revision opened =
      or_fail opened open_failed >>= (λ db. or_fail (db "key") no_bucket) >>= scan >>= λ records.
      ok (sort (λ r. from_least r.sub) records)
