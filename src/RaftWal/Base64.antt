-- ===== src/RaftWal/Base64.antt =====
-- `base64.StdEncoding` of the standard library, over bytes.
use mathlib.Core.Path.{ap₂}
use go_by_example.Prelude.{
  ℕ, ◌+◌, ◌-◌, ◌*◌, ◌/◌, ◌%◌, ◌<◌, ◌≡◌, refl, Bool, true, false, not, ◌&&◌, Option, none, some,
  List, [], ◌∷◌, arith, ltb, eqb, if◌then◌else◌, All, keep, ap, ◌∙◌, ◌≢◌,
}

abbrev pub Bytes : Type 0
Bytes = List ℕ

abbrev pub IsByte : ℕ → Type 0
IsByte b = b < 256

-- the alphabet: A-Z, a-z, 0-9, + and /
digit : ℕ → ℕ
digit n =
    if ltb n 26
    then n + 65
    else if ltb n 52
    then n + 71
    else if ltb n 62
    then n - 4
    else if ltb n 63
    then 43
    else 47

undigit : ℕ → Option ℕ
undigit c =
    if ltb c 43
    then none
    else if ltb c 44
    then some 62
    else if ltb c 47
    then none
    else if ltb c 48
    then some 63
    else if ltb c 58
    then some (c + 4)
    else if ltb c 65
    then none
    else if ltb c 91
    then some (c - 65)
    else if ltb c 97
    then none
    else if ltb c 123
    then some (c - 71)
    else none

abbrev padding : ℕ
padding = 61

unfoldable pub encode : Bytes → Bytes
unfolding digit
encode [] = []
encode (a ∷ []) = digit (a / 4) ∷ digit (a % 4 * 16) ∷ padding ∷ padding ∷ []
encode (a ∷ b ∷ []) =
    digit (a / 4) ∷ digit (a % 4 * 16 + b / 16) ∷ digit (b % 16 * 4) ∷ padding ∷ []
encode (a ∷ b ∷ c ∷ r) =
    digit (a / 4)
    ∷ digit (a % 4 * 16 + b / 16)
    ∷ digit (b % 16 * 4 + c / 64)
    ∷ digit (c % 64)
    ∷ encode r

one : Option ℕ → Option ℕ → Option Bytes
one (some p) (some q) = some ((p * 4 + q / 16) % 256 ∷ [])
one _ _ = none

two : Option ℕ → Option ℕ → Option ℕ → Option Bytes
two (some p) (some q) (some r) = some ((p * 4 + q / 16) % 256 ∷ (q * 16 + r / 4) % 256 ∷ [])
two _ _ _ = none

three : Option ℕ → Option ℕ → Option ℕ → Option ℕ → Option Bytes → Option Bytes
three (some p) (some q) (some r) (some s) (some rest) =
    some ((p * 4 + q / 16) % 256 ∷ (q * 16 + r / 4) % 256 ∷ (r * 64 + s) % 256 ∷ rest)
three _ _ _ _ _ = none

-- a group of four characters; padding may stand in the last group only
quad : ℕ → ℕ → ℕ → ℕ → Bytes → Option Bytes → Option Bytes
unfolding one two three undigit
quad p q r s [] rest =
    if eqb s padding
    then (if eqb r padding
        then one (undigit p) (undigit q)
        else two (undigit p) (undigit q) (undigit r))
    else three (undigit p) (undigit q) (undigit r) (undigit s) rest
quad p q r s (_ ∷ _) rest = three (undigit p) (undigit q) (undigit r) (undigit s) rest

quads : Bytes → Option Bytes
unfolding quad
quads [] = some []
quads (p ∷ q ∷ r ∷ s ∷ more) = quad p q r s more (quads more)
quads _ = none

-- line breaks in the text are skipped
is_text : ℕ → Bool
is_text c = not (eqb c 10) && not (eqb c 13)

unfoldable pub decode : Bytes → Option Bytes
unfolding quads is_text
decode s = quads (keep is_text s)

undigit-digit : (n : ℕ) → n < 64 → undigit (digit n) ≡ some n
unfolding undigit digit
undigit-digit n h = ground arith

digit-ne-padding : (n : ℕ) → n < 64 → eqb (digit n) padding ≡ false
unfolding digit
digit-ne-padding n h = ground arith

is_text-digit : (n : ℕ) → n < 64 → is_text (digit n) ≡ true
unfolding digit is_text
is_text-digit n h = ground arith

is_text-padding : is_text padding ≡ true
unfolding is_text
is_text-padding = refl

quad-digit :
    (p q r s : ℕ) (more : Bytes) (rest : Bytes)
    → p < 64
    → q < 64
    → r < 64
    → s < 64
    → quad (digit p) (digit q) (digit r) (digit s) more (some rest)
      ≡ some ((p * 4 + q / 16) % 256 ∷ (q * 16 + r / 4) % 256 ∷ (r * 64 + s) % 256 ∷ rest)
unfolding quad undigit
quad-digit p q r s [] rest hp hq hr hs = rw (
  digit-ne-padding s hs,
  undigit-digit p hp,
  undigit-digit q hq,
  undigit-digit r hr,
  undigit-digit s hs,
)
quad-digit p q r s (_ ∷ _) rest hp hq hr hs =
    rw (undigit-digit p hp, undigit-digit q hq, undigit-digit r hr, undigit-digit s hs)

three_of_parts :
    {a b c x y z : ℕ} {r : Bytes}
    → x ≡ a
    → y ≡ b
    → z ≡ c
    → some (x ∷ y ∷ z ∷ r) ≡ some (a ∷ b ∷ c ∷ r)
three_of_parts p q s = cc

quads-encode : (bs : Bytes) → All IsByte bs → quads (encode bs) ≡ some bs
unfolding quads encode
quads-encode [] h = refl
quads-encode (a ∷ []) h =
    rw (undigit-digit (a / 4) (omega arith), undigit-digit (a % 4 * 16) (omega arith))
      (ap (λ x. some (x ∷ [])) (omega arith))
quads-encode (a ∷ b ∷ []) h =
    rw
      (
        digit-ne-padding (b % 16 * 4) (omega arith),
        undigit-digit (a / 4) (omega arith),
        undigit-digit (a % 4 * 16 + b / 16) (omega arith),
        undigit-digit (b % 16 * 4) (omega arith),
      )
      (ap₂ (λ x y. some (x ∷ y ∷ [])) (omega arith) (omega arith))
quads-encode (a ∷ b ∷ c ∷ r) h = rw (quads-encode r h.1.1.1) (
    quad-digit (a / 4) (a % 4 * 16 + b / 16) (b % 16 * 4 + c / 64) (c % 64) (encode r) r
      (omega arith) (omega arith) (omega arith) (omega arith)
    ∙ three_of_parts (omega arith) (omega arith) (omega arith))

keep-encode : (bs : Bytes) → All IsByte bs → keep is_text (encode bs) ≡ encode bs
unfolding encode
keep-encode [] h = refl
keep-encode (a ∷ []) h =
    rw (
      is_text-digit (a / 4) (omega arith),
      is_text-digit (a % 4 * 16) (omega arith),
      is_text-padding,
    )
keep-encode (a ∷ b ∷ []) h = rw (
  is_text-digit (a / 4) (omega arith),
  is_text-digit (a % 4 * 16 + b / 16) (omega arith),
  is_text-digit (b % 16 * 4) (omega arith),
  is_text-padding,
)
keep-encode (a ∷ b ∷ c ∷ r) h = rw (
  is_text-digit (a / 4) (omega arith),
  is_text-digit (a % 4 * 16 + b / 16) (omega arith),
  is_text-digit (b % 16 * 4 + c / 64) (omega arith),
  is_text-digit (c % 64) (omega arith),
  keep-encode r h.1.1.1,
)

-- Decoding undoes encoding.
pub decode-encode : (bs : Bytes) → All IsByte bs → decode (encode bs) ≡ some bs
unfolding decode
decode-encode bs h = rw (keep-encode bs h) (quads-encode bs h)

pub encode-ne-nil : (bs : Bytes) → bs ≢ [] → encode bs ≢ []
unfolding encode
encode-ne-nil [] h e = h e
encode-ne-nil (a ∷ []) h e = cc
encode-ne-nil (a ∷ b ∷ []) h e = cc
encode-ne-nil (a ∷ b ∷ c ∷ r) h e = cc
