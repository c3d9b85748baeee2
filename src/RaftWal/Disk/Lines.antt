-- ===== src/RaftWal/Disk/Lines.antt =====
-- bufio.Scanner with its buffer limit, and strings.TrimSpace.
use go_by_example.Prelude.{
  ℕ, zero, suc, ◌∙◌, ◌*◌, ◌≡◌, refl, ap, Bool, true, false, ◌&&◌, ◌||◌, List, [], ◌∷◌, ◌++◌,
  if◌then◌else◌, length, leb, eqb, All, arith, Bool-cases, inl, inr,
}
use go_by_example.RaftWal.Base64.{Bytes}
use go_by_example.RaftWal.Messages.{NoBreak}

-- the lines before the first that does not fit the buffer, and whether there is such a line
pub record Scan : Type 0 where
  pub lines : List Bytes
  pub too_long : Bool

-- a carriage return at the end of a line is dropped
unfoldable pub drop_cr : Bytes → Bytes
drop_cr [] = []
drop_cr (b ∷ []) = if eqb b 13 then [] else b ∷ []
drop_cr (b ∷ x ∷ r) = b ∷ drop_cr (x ∷ r)

-- the text up to the first line break, and the lines after it; the last line may be empty
unfoldable pub split : Bytes → Bytes × List Bytes
split [] = ([], [])
split (b ∷ r) =
    let (line, more) = split r in if eqb b 10 then ([], line ∷ more) else (b ∷ line, more)

-- the end of the text ends a line only if something was read of it
unfoldable pub drop_empty_end : Bytes → List Bytes → List Bytes
drop_empty_end [] [] = []
drop_empty_end (b ∷ l) [] = (b ∷ l) ∷ []
drop_empty_end l (m ∷ more) = l ∷ drop_empty_end m more

unfoldable pub lines : Bytes → List Bytes
unfolding split drop_empty_end
lines t = let (line, more) = split t in drop_empty_end line more

-- scanner.Buffer(buf, 8*1024*1024): a line of this size does not fit
abbrev pub max_line : ℕ
max_line = 8 * 1024 * 1024

unfoldable pub fitting : List Bytes → Scan
unfolding drop_cr
fitting [] = record { lines = []; too_long = false }
fitting (l ∷ ls) =
    let more = fitting ls in
    if leb max_line (length l)
    then record { lines = []; too_long = true }
    else record more { lines = drop_cr l ∷ more.lines }

unfoldable pub scan : Bytes → Scan
unfolding lines fitting
scan t = fitting (lines t)

-- unicode.IsSpace on UTF-8: the white space of ASCII, U+0085 and U+00A0 in two bytes, and U+1680,
-- U+2000 to U+200A, U+2028, U+2029, U+202F, U+205F and U+3000 in three
is_space : ℕ → Bool
is_space b = (leb 9 b && leb b 13) || eqb b 32

is_space_2 : ℕ → ℕ → Bool
is_space_2 a b = (eqb b 133 || eqb b 160) && eqb a 194

is_space_3 : ℕ → ℕ → ℕ → Bool
is_space_3 a b c =
    (eqb c 128 && ((eqb a 225 && eqb b 154) || (eqb a 227 && eqb b 128)))
    || ((((leb 128 c && leb c 138) || (eqb c 168 || eqb c 169)) || eqb c 175)
        && (eqb a 226 && eqb b 128))
    || (eqb c 159 && (eqb a 226 && eqb b 129))

-- the width of the space that the text begins with, and 0 if there is none
space_width : Bytes → ℕ
unfolding is_space is_space_2 is_space_3
space_width [] = 0
space_width (a ∷ []) = if is_space a then 1 else 0
space_width (a ∷ b ∷ []) = if is_space a then 1 else if is_space_2 a b then 2 else 0
space_width (a ∷ b ∷ c ∷ r) =
    if is_space a then 1 else if is_space_2 a b then 2 else if is_space_3 a b c then 3 else 0

-- after the first bytes, which belong to a space
trim_after : ℕ → Bytes → Bytes
unfolding space_width
trim_after n [] = []
trim_after (suc n) (b ∷ r) = trim_after n r
trim_after zero (b ∷ r) = elim (space_width (b ∷ r)) [ zero ↦ b ∷ r | suc n ↦ trim_after n r ]

drop_space : ℕ → Bytes → Bytes
unfolding is_space is_space_2 is_space_3
drop_space a [] = if is_space a then [] else a ∷ []
drop_space a (b ∷ []) = if is_space_2 a b then [] else a ∷ b ∷ []
drop_space a (b ∷ c ∷ []) = if is_space_3 a b c then [] else a ∷ b ∷ c ∷ []
drop_space a (b ∷ c ∷ d ∷ r) = a ∷ b ∷ c ∷ d ∷ r

trim_right : Bytes → Bytes
unfolding drop_space
trim_right [] = []
trim_right (b ∷ r) = drop_space b (trim_right r)

unfoldable pub trim : Bytes → Bytes
unfolding trim_after trim_right
trim s = trim_right (trim_after 0 s)

-- A line that starts and ends with a brace, as a JSON object does.
abbrev pub braced : Bytes → Bytes
braced inner = b'{' ∷ (inner ++ b'}' ∷ [])

drop_space-brace : (b : ℕ) (l : Bytes) → drop_space b (l ++ b'}' ∷ []) ≡ b ∷ (l ++ b'}' ∷ [])
unfolding drop_space
drop_space-brace b [] = refl
drop_space-brace b (x ∷ []) = refl
drop_space-brace b (x ∷ y ∷ []) = refl
drop_space-brace b (x ∷ y ∷ z ∷ l) = refl

trim_right-brace : (l : Bytes) → trim_right (l ++ b'}' ∷ []) ≡ l ++ b'}' ∷ []
unfolding trim_right
trim_right-brace [] = refl
trim_right-brace (b ∷ l) = ap (drop_space b) (trim_right-brace l) ∙ drop_space-brace b l

space_width-brace : (l : Bytes) → space_width (b'{' ∷ l) ≡ 0
unfolding space_width
space_width-brace [] = refl
space_width-brace (b ∷ []) = ground arith
space_width-brace (b ∷ c ∷ l) = ground arith

trim_after-stays : (b : ℕ) (r : Bytes) → space_width (b ∷ r) ≡ 0 → trim_after 0 (b ∷ r) ≡ b ∷ r
unfolding trim_after
trim_after-stays b r e =
    ap (λ n. elim n as (λ _. Bytes) [ zero ↦ b ∷ r | suc m ↦ trim_after m r ]) e

pub trim-braced : (inner : Bytes) → trim (braced inner) ≡ braced inner
unfolding trim
trim-braced inner =
    ap trim_right
      (trim_after-stays b'{' (inner ++ b'}' ∷ []) (space_width-brace (inner ++ b'}' ∷ [])))
    ∙ trim_right-brace (b'{' ∷ inner)

drop_cr-brace : (l : Bytes) → drop_cr (l ++ b'}' ∷ []) ≡ l ++ b'}' ∷ []
unfolding drop_cr
drop_cr-brace [] = refl
drop_cr-brace (b ∷ []) = refl
drop_cr-brace (b ∷ x ∷ l) = ap (◌∷◌ b) (drop_cr-brace (x ∷ l))

pub drop_cr-braced : (inner : Bytes) → drop_cr (braced inner) ≡ braced inner
drop_cr-braced inner = drop_cr-brace (b'{' ∷ inner)

pub NoBreak-braced : (inner : Bytes) → All NoBreak inner → All NoBreak (braced inner)
NoBreak-braced inner h = (refl, go inner h)
  where
    go : (l : Bytes) → All NoBreak l → All NoBreak (l ++ b'}' ∷ [])
    go [] h = (refl, tt)
    go (b ∷ l) h = (h.0, go l h.1)

split-line :
    (line rest : Bytes)
    → All NoBreak line
    → split (line ++ 10 ∷ rest) ≡ (line, (split rest).0 ∷ (split rest).1)
unfolding split
split-line [] rest h = refl
split-line (b ∷ line) rest h = rw (split-line line rest h.1, h.0)

-- A line with its line break, and the lines after it.
pub lines-line :
    (line rest : Bytes) → All NoBreak line → lines (line ++ 10 ∷ rest) ≡ line ∷ lines rest
unfolding lines
lines-line line rest h = rw (split-line line rest h) (step line)
  where
    step : (l : Bytes) → drop_empty_end l ((split rest).0 ∷ (split rest).1) ≡ l ∷ lines rest
    step [] = refl
    step (_ ∷ _) = refl

fitting-cons :
    (l : Bytes) (ls : List Bytes)
    → (fitting (l ∷ ls)).too_long ≡ false
    → ((fitting ls).too_long ≡ false) × ((fitting (l ∷ ls)).lines ≡ drop_cr l ∷ (fitting ls).lines)
unfolding fitting
fitting-cons l ls h = elim (Bool-cases (leb max_line (length l))) [
  | inl long ↦ ground arith
  | inr short ↦ (ground arith, rw short)
]

-- Scanning a text that begins with a line.
pub scan-line :
    (l u : Bytes)
    → All NoBreak l
    → (scan (l ++ 10 ∷ u)).too_long ≡ false
    → ((scan u).too_long ≡ false) × ((scan (l ++ 10 ∷ u)).lines ≡ drop_cr l ∷ (scan u).lines)
unfolding scan
scan-line l u clean h =
    rw (lines-line l u clean) (fitting-cons l (lines u) (rw (lines-line l u clean) at h))

pub scan-nil : scan [] ≡ record { lines = []; too_long = false }
unfolding scan
scan-nil = refl
