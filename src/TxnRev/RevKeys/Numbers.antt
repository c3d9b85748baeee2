-- ===== src/TxnRev/RevKeys/Numbers.antt =====
-- Numbers of eight bytes.
use go_by_example.Prelude.{
  ℕ, zero, suc, ◌+◌, ◌*◌, ◌/◌, ◌%◌, ◌^◌, ◌≤◌, ◌<◌, ◌≡◌, ◌∙◌, refl, sym, ap, List, [], ◌∷◌, ◌++◌,
  length, All, arith,
}
use mathlib.Core.List.{append_assoc, append-nil}
use go_by_example.MessageCodec.{big_endian, value_from}
use go_by_example.MessageCodec.Framing.{power}

abbrev pub Byte : ℕ → Type 0
Byte b = b < 256

-- the bytes of a number give the number's bytes back
times_le : (a c p : ℕ) → a ≤ c → a * p ≤ c * p
times_le a c p h = grind arith

regroup : (a p : ℕ) → a * (256 * p) ≡ a * 256 * p
regroup a p = grind arith

one_more : (m acc b : ℕ) → b < 256 → big_endian (suc m) (acc * 256 + b) ≡ big_endian m acc ++ b ∷ []
unfolding big_endian
one_more m acc b h =
    let quotient : (acc * 256 + b) / 256 ≡ acc = omega arith in
    let rest : (acc * 256 + b) % 256 ≡ b = omega arith in rw (quotient, rest) refl

add_zero : (m : ℕ) → m + 0 ≡ m
add_zero m = omega arith

pub value_from-lt :
    (acc n : ℕ) (bs : List ℕ)
    → All Byte bs
    → length bs ≡ n
    → value_from acc bs < (acc + 1) * 256 ^ n
unfolding value_from
value_from-lt acc zero [] h e = omega arith
value_from-lt acc zero (b ∷ bs) h e = absurd (omega arith)
value_from-lt acc (suc n) [] h e = absurd (omega arith)
value_from-lt acc (suc n) (b ∷ bs) h e = omega (
  arith,
  power n,
  value_from-lt (acc * 256 + b) n bs h.1 (omega arith),
  times_le (acc * 256 + b + 1) ((acc + 1) * 256) (256 ^ n) (omega arith),
  regroup (acc + 1) (256 ^ n),
  ap (λ k. (acc + 1) * k) (power n),
)

-- written after the number `acc`, in `m` bytes, are the bytes that follow
pub big_endian-value_from :
    (m t acc : ℕ) (bs : List ℕ)
    → All Byte bs
    → t ≡ m + length bs
    → big_endian t (value_from acc bs) ≡ big_endian m acc ++ bs
unfolding value_from
big_endian-value_from m t acc [] h e =
    ap (λ k. big_endian k acc) (e ∙ add_zero m) ∙ sym (append-nil (big_endian m acc))
big_endian-value_from m t acc (b ∷ bs) h e =
    big_endian-value_from (suc m) t (acc * 256 + b) bs h.1 (omega arith)
    ∙ ap (λ l. l ++ bs) (one_more m acc b h.0)
    ∙ append_assoc (big_endian m acc) (b ∷ []) bs

-- eight bytes and the number that they give
pub number-bytes :
    (p : List ℕ)
    → All Byte p
    → length p ≡ 8
    → (value_from 0 p % 2 ^ 64 < 2 ^ 64) × (big_endian 8 (value_from 0 p % 2 ^ 64) ≡ p)
unfolding big_endian
number-bytes p h e =
    let small : value_from 0 p < 2 ^ 64 = omega (arith, value_from-lt 0 8 p h e) in
    let same : value_from 0 p % 2 ^ 64 ≡ value_from 0 p = omega arith in
    (omega arith, ap (λ k. big_endian 8 k) same ∙ big_endian-value_from 0 8 0 p h (omega arith))
