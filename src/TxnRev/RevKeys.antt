-- ===== src/TxnRev/RevKeys.antt =====
-- decodeRevisionKey of etcd/txn-rev-main-sub/main.go, which reads the keys of etcd's database. An
-- int64 is a number below 2 ^ 64 in two's complement.
pub mod Numbers
pub mod Splits
pub mod Encoded
use go_by_example.Prelude.{
  ℕ, ◌+◌, ◌%◌, ◌^◌, Bool, false, ◌||◌, ◌&&◌, not, Option, none, some, List, if◌then◌else◌, eqb,
  length, get_elem?, take, drop,
}
use go_by_example.MessageCodec.{value_from}

abbrev pub rev_bytes_len : ℕ
rev_bytes_len = 17

abbrev pub marked_rev_bytes_len : ℕ
marked_rev_bytes_len = 18

abbrev pub mark_tombstone : ℕ
mark_tombstone = b't'

-- the results of the function, where its `ok` is true
pub record Revision : Type 0 where
  pub main : ℕ
  pub sub : ℕ
  pub tombstone : Bool

-- `raw[i] == c`, for an `i` below the length
abbrev pub byte_is : ℕ → Option ℕ → Bool
byte_is c none = false
byte_is c (some b) = eqb b c

unfoldable pub decode_revision_key : List ℕ → Option Revision
unfolding value_from
decode_revision_key raw =
    if not (eqb (length raw) rev_bytes_len || eqb (length raw) marked_rev_bytes_len)
    then none
    else if not (byte_is b'_' (get_elem? raw 8))
    then none
    else some (record {
      main = value_from 0 (take 8 raw) % 2 ^ 64;
      sub = value_from 0 (take 8 (drop 9 raw)) % 2 ^ 64;
      tombstone =
          eqb (length raw) marked_rev_bytes_len && byte_is mark_tombstone (get_elem? raw 17);
    })
