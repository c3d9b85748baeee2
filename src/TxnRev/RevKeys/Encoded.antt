-- ===== src/TxnRev/RevKeys/Encoded.antt =====
-- The keys that decodeRevisionKey accepts.
use go_by_example.Prelude.{
  ℕ, ◌%◌, ◌^◌, ◌≤◌, ◌<◌, ◌≡◌, ◌↔◌, ◌∙◌, refl, sym, ap, Option, none, some, List, [], ◌∷◌, ◌++◌, eqb,
  length, get_elem?, take, drop, All, arith, length-append, take-append-drop, length-drop, subst,
  leb, if◌then◌else◌, ltb, Bool-cases, inl, inr, length-take,
}
use go_by_example.MessageCodec.{big_endian, value_from}
use go_by_example.MessageCodec.Framing.{value_from-big_endian, length-big_endian}
use go_by_example.TxnRev.RevKeys.Numbers.{Byte, number-bytes}
use go_by_example.TxnRev.RevKeys.Splits.{take_at, drop_next, get_at, All-take, All-drop}
use go_by_example.TxnRev.RevKeys.{Revision, byte_is, mark_tombstone, decode_revision_key}

-- the mark that may follow the two numbers
abbrev pub Mark : Type 0
Mark = Option ℕ

abbrev pub mark_bytes : Mark → List ℕ
mark_bytes none = []
mark_bytes (some b) = b ∷ []

-- the layout that the comment on revBytesLen gives
abbrev pub encoded : ℕ → ℕ → Mark → List ℕ
encoded main sub mark = big_endian 8 main ++ (b'_' ∷ (big_endian 8 sub ++ mark_bytes mark))

-- `raw` stands for the revision
abbrev pub Encodes : List ℕ → Revision → Type 0
Encodes raw r =
    (r.main < 2 ^ 64)
    × (r.sub < 2 ^ 64)
    × (mark : Mark) × (raw ≡ encoded r.main r.sub mark)
    × (r.tombstone ≡ byte_is mark_tombstone mark)

-- the parts of a key with a separator
abbrev parts : List ℕ → ℕ → List ℕ → List ℕ → List ℕ
parts p c q t = p ++ (c ∷ (q ++ t))

no_mark : (t : List ℕ) → length t ≡ 0 → get_elem? t 0 ≡ none
no_mark [] e = refl
no_mark (x ∷ t) e = absurd (omega arith)

decode_parts :
    (p q t : List ℕ) (c : ℕ)
    → length p ≡ 8
    → length q ≡ 8
    → decode_revision_key (parts p c q t) ≡ (
        if leb (length t) 1
        then if eqb c b'_'
          then some (record {
            main = value_from 0 p % 2 ^ 64;
            sub = value_from 0 q % 2 ^ 64;
            tombstone = byte_is mark_tombstone (get_elem? t 0);
          })
          else none
        else none)
unfolding decode_revision_key
decode_parts p q t c hp hq = ground (
  arith,
  take_at 8 p (c ∷ (q ++ t)) hp,
  drop_next 8 p (q ++ t) c hp,
  take_at 8 q t hq,
  get_at 8 0 8 p (c ∷ (q ++ t)) hp,
  get_at 8 9 17 p (c ∷ (q ++ t)) hp,
  get_at 8 0 8 q t hq,
  length-append p (c ∷ (q ++ t)),
  length-append q t,
  no_mark t,
)

abbrev Parts : List ℕ → Type 0
Parts raw =
    (p : List ℕ) × (c : ℕ) × (q : List ℕ) × (t : List ℕ) × (raw ≡ parts p c q t)
    × (length p ≡ 8)
    × (length q ≡ 8)
    × All Byte p
    × All Byte q

cut_rest : (p d : List ℕ) → All Byte p → length p ≡ 8 → All Byte d → 9 ≤ length d → Parts (p ++ d)
cut_rest p [] hp e h long = absurd (omega arith)
cut_rest p (c ∷ d) hp e h long = (
  p,
  c,
  take 8 d,
  drop 8 d,
  ap (λ l. p ++ (c ∷ l)) (sym (take-append-drop 8 d)),
  e,
  length-take 8 d (omega arith),
  hp,
  All-take 8 d h.1,
)

cut : (raw : List ℕ) → All Byte raw → 17 ≤ length raw → Parts raw
cut raw h long = subst Parts (take-append-drop 8 raw) (
    cut_rest (take 8 raw) (drop 8 raw) (All-take 8 raw h) (length-take 8 raw (omega arith))
      (All-drop 8 raw h) (omega (arith, length-drop 8 raw)))

mark_bytes-first : (t : List ℕ) → length t ≤ 1 → t ≡ mark_bytes (get_elem? t 0)
mark_bytes-first [] h = refl
mark_bytes-first (b ∷ []) h = refl
mark_bytes-first (b ∷ b' ∷ t) h = absurd (omega arith)

length-mark_bytes : (mark : Mark) → length (mark_bytes mark) ≤ 1
length-mark_bytes none = omega arith
length-mark_bytes (some b) = omega arith

first-mark_bytes : (mark : Mark) → get_elem? (mark_bytes mark) 0 ≡ mark
first-mark_bytes none = refl
first-mark_bytes (some b) = refl

decoded_parts :
    (p q t : List ℕ) (c : ℕ) (r : Revision)
    → length p ≡ 8
    → length q ≡ 8
    → All Byte p
    → All Byte q
    → decode_revision_key (parts p c q t) ≡ some r
    → Encodes (parts p c q t) r
decoded_parts p q t c r hp hq bp bq e =
    let found = sym (decode_parts p q t c hp hq) ∙ e in
    let (small, is_main) = number-bytes p bp hp in
    let (small', is_sub) = number-bytes q bq hq in
    let is_mark = mark_bytes-first t in
    (ground arith, ground arith, get_elem? t 0, ground arith, ground arith)

pub encoded-decoded :
    (raw : List ℕ) (r : Revision) → Encodes raw r → decode_revision_key raw ≡ some r
encoded-decoded raw r (m, s, mark, e, t) =
    ap decode_revision_key e
    ∙ decode_parts (big_endian 8 r.main) (big_endian 8 r.sub) (mark_bytes mark) b'_'
        (length-big_endian 8 r.main) (length-big_endian 8 r.sub)
    ∙ ground (
      arith,
      length-mark_bytes mark,
      first-mark_bytes mark,
      value_from-big_endian 8 r.main,
      value_from-big_endian 8 r.sub,
    )

too_short : (raw : List ℕ) → length raw < 17 → decode_revision_key raw ≡ none
unfolding decode_revision_key
too_short raw h = ground arith

-- decodeRevisionKey accepts a key of bytes exactly if it is the eight bytes of a number of 64 bits,
-- an underscore, the eight bytes of another and at most one further byte; it gives these numbers,
-- and a tombstone exactly if the further byte is there and is 't'.
pub decode_revision_key_iff :
    (raw : List ℕ) (r : Revision)
    → All Byte raw
    → (decode_revision_key raw ≡ some r) ↔ Encodes raw r
decode_revision_key_iff raw r h = (
  λ e. elim (Bool-cases (ltb (length raw) 17)) [
    | inl short ↦ absurd (ground (arith, too_short raw))
    | inr long ↦
        let (p, c, q, t, same, hp, hq, bp, bq) = cut raw h (ground arith) in
        subst (λ k. Encodes k r) (sym same)
          (decoded_parts p q t c r hp hq bp bq (sym (ap decode_revision_key same) ∙ e))
  ],
  encoded-decoded raw r,
)
