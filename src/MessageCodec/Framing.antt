-- ===== src/MessageCodec/Framing.antt =====
-- Proofs about decodeLimit, on streams of encodeMessage and on any.
use go_by_example.Prelude.{
  ℕ, zero, suc, ◌+◌, ◌-◌, ◌*◌, ◌/◌, ◌%◌, ◌^◌, ◌≤◌, ◌<◌, ◌≡◌, ◌∙◌, inl, inr, refl, sym, ap, List, [],
  ◌∷◌, ◌++◌, if◌then◌else◌, ltb, length, take, drop, arith, Bool-cases, length-append, take-append,
  eqb, drop-append, take-append-drop, length-take,
}
use mathlib.Core.List.{append_assoc, append-nil}
use go_by_example.MessageCodec.{
  message, eof, unexpected_eof, exceed_size_limit, big_endian, value_from, encode_message,
  short_read, read_full, read_payload, decode_limit,
}

pub length-big_endian : (n x : ℕ) → length (big_endian n x) ≡ n
unfolding big_endian
length-big_endian zero x = refl
length-big_endian (suc n) x =
    ground
      (arith, length-big_endian n (x / 256), length-append (big_endian n (x / 256)) (x % 256 ∷ []))

pub value_from-append :
    (acc b : ℕ) (bs : List ℕ) → value_from acc (bs ++ b ∷ []) ≡ value_from acc bs * 256 + b
unfolding value_from
value_from-append acc b [] = refl
value_from-append acc b (a ∷ bs) = value_from-append (acc * 256 + a) b bs

pub power : (n : ℕ) → 256 ^ suc n ≡ 256 * 256 ^ n
power n = omega arith

pub value_from-big_endian : (n x : ℕ) → x < 256 ^ n → value_from 0 (big_endian n x) ≡ x
unfolding big_endian value_from
value_from-big_endian zero x h = omega arith
value_from-big_endian (suc n) x h =
    value_from-append 0 (x % 256) (big_endian n (x / 256))
    ∙ omega (arith, value_from-big_endian n (x / 256) (omega (arith, power n)))

front :
    (n : ℕ) (p xs ys : List ℕ)
    → length p ≡ n
    → (take n ((p ++ xs) ++ ys) ≡ p) × (drop n ((p ++ xs) ++ ys) ≡ xs ++ ys)
front n p xs ys e =
    rw (← e, append_assoc p xs ys) (take-append p (xs ++ ys), drop-append p (xs ++ ys))

header : List ℕ → List ℕ
header msg = big_endian 8 (length msg % 2 ^ 64)

encode_message_lem : (msg : List ℕ) → encode_message msg ≡ header msg ++ msg
unfolding encode_message header
encode_message_lem msg = refl

length-header : (msg : List ℕ) → length (header msg) ≡ 8
unfolding header
length-header msg = length-big_endian 8 (length msg % 2 ^ 64)

value_from-header : (msg : List ℕ) → length msg < 2 ^ 64 → value_from 0 (header msg) ≡ length msg
unfolding header
value_from-header msg h = value_from-big_endian 8 (length msg % 2 ^ 64) (omega arith) ∙ omega arith

-- what decodeLimit sees of an encoded message
at_header :
    (max_alloc : ℕ) (msg xs ys : List ℕ) (limit : ℕ)
    → length msg < 2 ^ 64
    → decode_limit max_alloc ((header msg ++ xs) ++ ys) limit
      ≡ read_payload max_alloc (length msg) limit (xs ++ ys)
unfolding decode_limit
at_header max_alloc msg xs ys limit h =
    let (t, d) = front 8 (header msg) xs ys (length-header msg) in
    let long = length-append (header msg ++ xs) ys in
    let long' = length-append (header msg) xs in
    rw (t, d, value_from-header msg h) (ground (arith, length-header msg))

take-beyond : (p xs : List ℕ) (n k : ℕ) → n ≡ length p + k → take n (p ++ xs) ≡ p ++ take k xs
take-beyond [] xs n k e = ap (λ i. take i xs) (omega arith)
take-beyond (x ∷ p) xs zero k e = ground arith
take-beyond (x ∷ p) xs (suc n) k e = ap (◌∷◌ x) (take-beyond p xs n k (omega arith))

short_read-take :
    (k : ℕ) (xs : List ℕ)
    → k < length xs
    → short_read (take k xs) ≡ (if eqb k 0 then eof else unexpected_eof)
unfolding short_read
short_read-take k [] h = ground arith
short_read-take zero (x ∷ xs) h = refl
short_read-take (suc k) (x ∷ xs) h = ground arith

read_payload_accepts :
    (max_alloc l limit : ℕ) (s rest msg : List ℕ)
    → read_payload max_alloc l limit s ≡ (rest, message msg)
    → (length msg ≤ limit) × (l ≡ length msg) × (s ≡ msg ++ rest)
unfolding read_payload read_full short_read
read_payload_accepts max_alloc l limit [] rest msg e = ground (arith, length-take {A = ℕ} l [])
read_payload_accepts max_alloc l limit (b ∷ s) rest msg e =
    ground (arith, length-take l (b ∷ s), take-append-drop l (b ∷ s))

-- A message that encodeMessage wrote, of less than 2 ^ 63 bytes, no longer than the runtime
-- allocates and within the limit, is read back by decodeLimit, which leaves the rest of the stream
-- unread.
pub decode_limit-encode_message :
    (max_alloc : ℕ) (msg rest : List ℕ) (limit : ℕ)
    → length msg ≤ limit
    → length msg < 9223372036854775808
    → length msg ≤ max_alloc
    → decode_limit max_alloc (encode_message msg ++ rest) limit ≡ (rest, message msg)
unfolding read_payload read_full
decode_limit-encode_message max_alloc msg rest limit fits small made = rw (encode_message_lem msg) (
    at_header max_alloc msg msg rest limit (omega arith)
    ∙ ground (arith, take-append msg rest, drop-append msg rest, length-append msg rest))

-- A message of less than 2 ^ 64 bytes over the limit is refused, with its payload left unread.
pub over_limit :
    (max_alloc : ℕ) (msg rest : List ℕ) (limit : ℕ)
    → limit < length msg
    → length msg < 2 ^ 64
    → decode_limit max_alloc (encode_message msg ++ rest) limit ≡ (msg ++ rest, exceed_size_limit)
unfolding read_payload
over_limit max_alloc msg rest limit over small =
    rw (encode_message_lem msg) (at_header max_alloc msg msg rest limit small ∙ ground arith)

cut_payload :
    (msg : List ℕ) (n : ℕ)
    → 8 ≤ n
    → take n (header msg ++ msg) ≡ (header msg ++ take (n - 8) msg) ++ []
cut_payload msg n h =
    take-beyond (header msg) msg n (n - 8) (omega (arith, length-header msg))
    ∙ sym (append-nil (header msg ++ take (n - 8) msg))

short_payload :
    (max_alloc : ℕ) (msg : List ℕ) (limit n : ℕ)
    → length msg ≤ limit
    → length msg < 9223372036854775808
    → length msg ≤ max_alloc
    → n < 8 + length msg
    → 8 ≤ n
    → (read_payload max_alloc (length msg) limit (take (n - 8) msg ++ [])).1
      ≡ (if eqb n 0 then eof else if eqb n 8 then eof else unexpected_eof)
unfolding read_payload read_full
short_payload max_alloc msg limit n fits small made cut h =
    rw (append-nil (take (n - 8) msg))
      (ground (arith, length-take (n - 8) msg, short_read-take (n - 8) msg))

-- A stream that ends within an encoded message of less than 2 ^ 63 bytes, no longer than the runtime
-- allocates and within the limit, gives no message: decodeLimit answers io.EOF if it ends where the length or the payload begins, and
-- io.ErrUnexpectedEOF elsewhere.
pub cut_short :
    (max_alloc : ℕ) (msg : List ℕ) (limit n : ℕ)
    → length msg ≤ limit
    → length msg < 9223372036854775808
    → length msg ≤ max_alloc
    → n < 8 + length msg
    → (decode_limit max_alloc (take n (encode_message msg)) limit).1
      ≡ (if eqb n 0 then eof else if eqb n 8 then eof else unexpected_eof)
unfolding decode_limit
cut_short max_alloc msg limit n fits small made cut =
    rw (encode_message_lem msg) (elim (Bool-cases (ltb n 8)) [
      | inl e ↦ ground (
        arith,
        short_read-take n (header msg ++ msg),
        length-take n (header msg ++ msg),
        length-append (header msg) msg,
        length-header msg,
      )
      | inr e ↦
          ap (λ r. (decode_limit max_alloc r limit).1) (cut_payload msg n (ground arith))
          ∙ ap (λ o. o.1) (at_header max_alloc msg (take (n - 8) msg) [] limit (omega arith))
          ∙ short_payload max_alloc msg limit n fits small made cut (ground arith)
    ])

-- Whatever the stream holds, a message that decodeLimit accepts is within the limit, its length
-- stands in the first eight bytes of the stream, and the stream is these, the message and the rest.
pub accepted :
    (max_alloc : ℕ) (r rest msg : List ℕ) (limit : ℕ)
    → decode_limit max_alloc r limit ≡ (rest, message msg)
    → (length msg ≤ limit) × (value_from 0 (take 8 r) ≡ length msg) × (r ≡ take 8 r ++ msg ++ rest)
unfolding decode_limit short_read
accepted max_alloc [] rest msg limit e = ground arith
accepted max_alloc (b ∷ r) rest msg limit e = ground (
  arith,
  read_payload_accepts max_alloc (value_from 0 (take 8 (b ∷ r))) limit (drop 8 (b ∷ r)) rest msg,
  take-append-drop 8 (b ∷ r),
)
