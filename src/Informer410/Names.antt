-- ===== src/Informer410/Names.antt =====
-- The names of the rounds of a churn.
use go_by_example.Prelude.{
  ℕ, zero, suc, ◌+◌, ◌-◌, ◌*◌, ◌/◌, ◌%◌, ◌^◌, ◌<◌, ◌≡◌, ◌≢◌, refl, ap, sym, ◌∙◌, [], ◌∷◌, ◌++◌,
  length, arith,
}
use go_by_example.Prelude.Texts.{Text, digits, comparable_text}
use go_by_example.Informer410.{zeros, padded, churn_name}

-- the number that digits stand for
value : ℕ → Text → ℕ
value acc [] = acc
value acc (c ∷ s) = value (acc * 10 + (c - 48)) s

value-append : (acc c : ℕ) (s : Text) → value acc (s ++ c ∷ []) ≡ value acc s * 10 + (c - 48)
unfolding value
value-append acc c [] = refl
value-append acc c (d ∷ s) = value-append (acc * 10 + (d - 48)) c s

tenfold : (k : ℕ) → 10 ^ suc k ≡ 10 * 10 ^ k
tenfold k = omega arith

value-digits : (k n : ℕ) → n < 10 ^ k → value 0 (digits k n) ≡ n
unfolding digits value
value-digits zero n h = omega arith
value-digits (suc k) n h =
    ground
      (arith, value-append 0 (48 + n % 10) (digits k (n / 10)), value-digits k (n / 10), tenfold k)

value-zeros : (k : ℕ) (s : Text) → value 0 (zeros k ++ s) ≡ value 0 s
unfolding value
value-zeros zero s = refl
value-zeros (suc k) s = value-zeros k s

value-padded : (ds : Text) → value 0 (padded ds) ≡ value 0 ds
unfolding padded
value-padded ds = value-zeros (5 - length ds) ds

-- different rounds have different names
pub churn_name-ne : (i j : ℕ) → i < 10 ^ 19 → j < 10 ^ 19 → i ≢ j → churn_name i ≢ churn_name j
unfolding churn_name
churn_name-ne i j hi hj apart e =
    let same_padded : padded (digits 19 i) ≡ padded (digits 19 j) = cc in
    apart (
      sym (value-padded (digits 19 i) ∙ value-digits 19 i hi)
      ∙ ap (λ t. value 0 t) same_padded
      ∙ value-padded (digits 19 j)
      ∙ value-digits 19 j hj)
