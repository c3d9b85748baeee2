-- ===== src/MessageCodec.antt =====
-- encodeMessage and decodeLimit of io/message-codec/main.go: messages behind an 8-byte big-endian
-- length, read with a limit. A stream is the bytes that are still to be read.
pub mod Framing
mod Tests
use go_by_example.Prelude.{
  ℕ, zero, suc, ◌+◌, ◌*◌, ◌/◌, ◌%◌, ◌^◌, Bool, List, [], ◌∷◌, ◌++◌, if◌then◌else◌, ltb, leb, ◌&&◌,
  length, take, drop,
}

abbrev pub Stream : Type 0
Stream = List ℕ

pub data Outcome : Type 0 where
  message : List ℕ → Outcome
  -- io.EOF and io.ErrUnexpectedEOF
  eof unexpected_eof exceed_size_limit : Outcome
  -- `make` with a length that is negative or too large for the runtime
  makeslice_panic : Outcome

-- the last `n` bytes of a number, the most significant one first
unfoldable pub big_endian : ℕ → ℕ → List ℕ
big_endian zero x = []
big_endian (suc n) x = big_endian n (x / 256) ++ x % 256 ∷ []

unfoldable pub value_from : ℕ → List ℕ → ℕ
value_from acc [] = acc
value_from acc (b ∷ bs) = value_from (acc * 256 + b) bs

unfoldable pub encode_message : List ℕ → Stream
unfolding big_endian
encode_message msg = big_endian 8 (length msg % 2 ^ 64) ++ msg

-- io.ReadFull of `n` bytes: what it answers on a stream that is too short
short_read : Stream → Outcome
short_read [] = eof
short_read (_ ∷ _) = unexpected_eof

unfoldable pub read_full : ℕ → Stream → Stream × Outcome
unfolding short_read
read_full n r = if ltb (length r) n then ([], short_read r) else (drop n r, message (take n r))

-- `max_alloc` is the largest number of bytes that the Go runtime allocates at once
module _ (max_alloc : ℕ) where
  -- whether `make` takes int(l) as a length
  abbrev pub can_make : ℕ → Bool
  can_make l = ltb l 9223372036854775808 && leb l max_alloc

  unfoldable pub read_payload : ℕ → ℕ → Stream → Stream × Outcome
  unfolding read_full
  read_payload l limit r =
      if ltb limit l
      then (r, exceed_size_limit)
      else if can_make l
      then read_full l r
      else (r, makeslice_panic)

  unfoldable pub decode_limit : Stream → ℕ → Stream × Outcome
  unfolding short_read read_payload value_from
  decode_limit r limit =
      if ltb (length r) 8
      then ([], short_read r)
      else read_payload (value_from 0 (take 8 r)) limit (drop 8 r)
