-- ===== src/MessageCodec/Tests.antt =====
-- The streams that main decodes, shortened.
use go_by_example.Prelude.{
  ℕ, ◌≤◌, ◌≡◌, refl, List, [], ◌∷◌, ◌++◌, if◌then◌else◌, eqb, length, take, arith,
}
use go_by_example.MessageCodec.{
  message, eof, unexpected_eof, big_endian, value_from, encode_message, read_full, read_payload,
  decode_limit,
}
use go_by_example.MessageCodec.Framing.{decode_limit-encode_message, cut_short, accepted}

-- as on a machine with addresses of 48 bits
abbrev allocates : ℕ
allocates = 281474976710656

-- "raft" and "abc"
abbrev raft : List ℕ
raft = 114 ∷ 97 ∷ 102 ∷ 116 ∷ []

abbrev abc : List ℕ
abc = 97 ∷ 98 ∷ 99 ∷ []

raft_encoded : encode_message raft ≡ 0 ∷ 0 ∷ 0 ∷ 0 ∷ 0 ∷ 0 ∷ 0 ∷ 4 ∷ raft
unfolding encode_message big_endian
raft_encoded = refl

decode_limit-encode_message_example :
    decode_limit allocates (encode_message raft ++ abc) 1024 ≡ (abc, message raft)
decode_limit-encode_message_example =
    decode_limit-encode_message allocates raft abc 1024 (omega arith) (omega arith) (omega arith)

cut_short_example :
    (decode_limit allocates (take 10 (encode_message raft)) 1024).1
    ≡ (if eqb 10 0 then eof else if eqb 10 8 then eof else unexpected_eof)
cut_short_example =
    cut_short allocates raft 1024 10 (omega arith) (omega arith) (omega arith) (omega arith)

-- the bytes of a message with three more behind it
abbrev raft_stream : List ℕ
raft_stream = 0 ∷ 0 ∷ 0 ∷ 0 ∷ 0 ∷ 0 ∷ 0 ∷ 4 ∷ raft ++ abc

raft_decoded : decode_limit allocates raft_stream 1024 ≡ (abc, message raft)
unfolding decode_limit read_payload read_full value_from
raft_decoded = refl

accepted_example :
    (length raft ≤ 1024)
    × (value_from 0 (take 8 raft_stream) ≡ length raft)
    × (raft_stream ≡ take 8 raft_stream ++ raft ++ abc)
accepted_example = accepted allocates raft_stream abc raft 1024 raft_decoded
