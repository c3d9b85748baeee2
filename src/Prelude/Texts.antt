-- ===== src/Prelude/Texts.antt =====
-- What the programs use of Go's packages strings, bytes and unicode/utf8. A text is the list of its
-- code points.
use Prim.Native.Char.{code}
use Prim.Native.String.{String}
use Prim.Native.Nat.{ℕ, zero, suc, ◌+◌, ◌/◌, ◌%◌}
use mathlib.Core.Path.{◌≡◌, refl, ap, sym, subst, ◌∙◌}
use mathlib.Core.Logic.{◌≢◌, ◌↔◌, inl, inr}
use mathlib.Core.Bool.{Bool, true, false, ◌||◌, ◌&&◌}
use mathlib.Core.List.{List, [], ◌∷◌, ◌++◌}
use native.Mathlib.Omega.{arith}
use go_by_example.Prelude.Tests.{if◌then◌else◌, ltb, leb, eqb, Bool-cases}
use go_by_example.Prelude.Lists.{All}
use go_by_example.Prelude.Keys.{Comparable}

abbrev pub Text : Type 0
Text = List ℕ

-- unicode.IsSpace
unfoldable pub is_space : ℕ → Bool
is_space c =
    leb 9 c && leb c 13
    || eqb c 32
    || eqb c 133
    || eqb c 160
    || eqb c 5760
    || leb 8192 c && leb c 8202
    || eqb c 8232
    || eqb c 8233
    || eqb c 8239
    || eqb c 8287
    || eqb c 12288

-- the code points of a literal
abbrev pub codes : String → Text
codes String.[] = []
codes (String.◌∷◌ c s) = code c ∷ codes s

-- the decimal digits of a number below 10 ^ fuel
unfoldable pub digits : ℕ → ℕ → Text
digits zero n = []
digits (suc fuel) n =
    let front = digits fuel (n / 10) in
    if ltb n 10 then (48 + n) ∷ [] else front ++ (48 + n % 10) ∷ []

-- strings.Join
unfoldable pub join : List Text → Text → Text
join [] sep = []
join (s ∷ []) sep = s
join (s ∷ t ∷ ss) sep = s ++ (sep ++ join (t ∷ ss) sep)

-- the order of Go's strings
unfoldable pub text_less : Text → Text → Bool
text_less s [] = false
text_less [] (d ∷ t) = true
text_less (c ∷ s) (d ∷ t) = if eqb c d then text_less s t else ltb c d

abbrev pub is_empty {ℓ} : {A : Type ℓ} → List A → Bool
is_empty [] = true
is_empty (_ ∷ _) = false

unfoldable pub trim_left : Text → Text
trim_left [] = []
trim_left (c ∷ s) = let rest = trim_left s in if is_space c then rest else c ∷ s

unfoldable pub trim_right : Text → Text
trim_right [] = []
trim_right (c ∷ s) = let rest = trim_right s in if is_space c && is_empty rest then [] else c ∷ rest

-- strings.TrimSpace
unfoldable pub trim_space : Text → Text
unfolding trim_left trim_right
trim_space s = trim_right (trim_left s)

abbrev pub push_first : ℕ → List Text → List Text
push_first c [] = []
push_first c (s ∷ ss) = (c ∷ s) ∷ ss

-- strings.Split by a separator of one character
unfoldable pub split : Text → ℕ → List Text
split [] sep = [] ∷ []
split (c ∷ s) sep = let rest = split s sep in if eqb c sep then [] ∷ rest else push_first c rest

abbrev pub same_text : Text → Text → Bool
same_text [] [] = true
same_text (c ∷ s) (d ∷ t) = eqb c d && same_text s t
same_text _ _ = false

pub same_text_iff : (s t : Text) → (same_text s t ≡ true) ↔ (s ≡ t)
same_text_iff [] [] = ground arith
same_text_iff [] (d ∷ t) = ground arith
same_text_iff (c ∷ s) [] = ground arith
same_text_iff (c ∷ s) (d ∷ t) = ground (arith, same_text_iff s t)

instance abbrev pub comparable_text : Comparable Text
comparable_text = record { same = same_text; same_iff = same_text_iff }

-- bytes.HasPrefix
unfoldable pub has_prefix : List ℕ → List ℕ → Bool
has_prefix s [] = true
has_prefix [] (p ∷ ps) = false
has_prefix (c ∷ s) (p ∷ ps) = eqb c p && has_prefix s ps

-- the UTF-8 encoding of a code point
unfoldable pub utf8_rune : ℕ → List ℕ
utf8_rune c =
    if ltb c 128
    then c ∷ []
    else if ltb c 2048
    then (192 + c / 64) ∷ (128 + c % 64) ∷ []
    else if ltb c 65536
    then (224 + c / 4096) ∷ (128 + c / 64 % 64) ∷ (128 + c % 64) ∷ []
    else (240 + c / 262144) ∷ (128 + c / 4096 % 64) ∷ (128 + c / 64 % 64) ∷ (128 + c % 64) ∷ []

-- `[]byte(s)`
unfoldable pub utf8 : Text → List ℕ
unfolding utf8_rune
utf8 [] = []
utf8 (c ∷ s) = utf8_rune c ++ utf8 s

has_prefix-append : (p rest : List ℕ) → has_prefix (p ++ rest) p ≡ true
unfolding has_prefix
has_prefix-append [] [] = refl
has_prefix-append [] (c ∷ rest) = refl
has_prefix-append (c ∷ p) rest = ground (arith, has_prefix-append p rest)

after_prefix : (s p : List ℕ) → has_prefix s p ≡ true → (rest : List ℕ) × (s ≡ p ++ rest)
unfolding has_prefix
after_prefix s [] h = (s, refl)
after_prefix [] (c ∷ p) h = absurd (cc)
after_prefix (d ∷ s) (c ∷ p) h =
    let (rest, e) = after_prefix s p (ground arith) in (rest, ground arith)

pub has_prefix_iff : (s p : List ℕ) → (has_prefix s p ≡ true) ↔ ((rest : List ℕ) × (s ≡ p ++ rest))
has_prefix_iff s p =
    (after_prefix s p, λ h. subst (λ t. has_prefix t p ≡ true) (sym h.1) (has_prefix-append p h.0))

trim_left_idem : (s : Text) → trim_left (trim_left s) ≡ trim_left s
unfolding trim_left
trim_left_idem [] = refl
trim_left_idem (c ∷ s) = ground (arith, trim_left_idem s)

trim_right_idem : (s : Text) → trim_right (trim_right s) ≡ trim_right s
unfolding trim_right
trim_right_idem [] = refl
trim_right_idem (c ∷ s) = elim (Bool-cases (is_space c && is_empty (trim_right s))) [
  | inl e ↦ rw e refl
  | inr e ↦ rw (e, trim_right_idem s) (rw e refl)
]

trim_left-head : (s t : Text) (c : ℕ) → trim_left s ≡ c ∷ t → is_space c ≡ false
unfolding trim_left
trim_left-head [] t c h = absurd (cc)
trim_left-head (d ∷ s) t c h = elim (Bool-cases (is_space d)) [
  | inl e ↦ trim_left-head s t c (ground arith)
  | inr e ↦ ground arith
]

-- trimming on the right keeps a text without leading space so
trim_left-trim_right : (s : Text) → trim_left s ≡ s → trim_left (trim_right s) ≡ trim_right s
unfolding trim_left trim_right
trim_left-trim_right [] h = refl
trim_left-trim_right (c ∷ s) h = ground (arith, trim_left-head (c ∷ s) s c h)

pub trim_space_idem : (s : Text) → trim_space (trim_space s) ≡ trim_space s
unfolding trim_space
trim_space_idem s =
    ap (λ t. trim_right t) (trim_left-trim_right (trim_left s) (trim_left_idem s))
    ∙ trim_right_idem (trim_left s)

module _ (P : ℕ → Type 0) where
  All-trim_left : (s : Text) → All P s → All P (trim_left s)
  unfolding trim_left
  All-trim_left [] h = tt
  All-trim_left (c ∷ s) h = ground (arith, All-trim_left s h.1)

  All-trim_right : (s : Text) → All P s → All P (trim_right s)
  unfolding trim_right
  All-trim_right [] h = tt
  All-trim_right (c ∷ s) h = ground (arith, All-trim_right s h.1)

  pub All-trim_space : (s : Text) → All P s → All P (trim_space s)
  unfolding trim_space
  All-trim_space s h = All-trim_right (trim_left s) (All-trim_left s h)

All-push_first :
    (c sep : ℕ) (ss : List Text)
    → c ≢ sep
    → All (All (λ d. d ≢ sep)) ss
    → All (All (λ d. d ≢ sep)) (push_first c ss)
All-push_first c sep [] n h = tt
All-push_first c sep (s ∷ ss) n h = ((n, h.0), h.1)

-- no part holds the separator
pub split-lacks : (s : Text) (sep : ℕ) → All (All (λ d. d ≢ sep)) (split s sep)
unfolding split
split-lacks [] sep = (tt, tt)
split-lacks (c ∷ s) sep = elim (Bool-cases (eqb c sep)) [
  | inl e ↦ rw e (tt, split-lacks s sep)
  | inr e ↦ rw e (All-push_first c sep (split s sep) (ground arith) (split-lacks s sep))
]
