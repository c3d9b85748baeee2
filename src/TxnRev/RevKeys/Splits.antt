-- ===== src/TxnRev/RevKeys/Splits.antt =====
-- Lists taken apart at a known length.
use go_by_example.Prelude.{
  ℕ, zero, suc, ◌+◌, ◌≡◌, refl, ap, List, [], ◌∷◌, ◌++◌, length, get_elem?, take, drop, All, arith,
  take-append, drop-append,
}
use go_by_example.TxnRev.RevKeys.Numbers.{Byte}

module _ {A : Type 0} where
  pub take_at : (n : ℕ) (p s : List A) → length p ≡ n → take n (p ++ s) ≡ p
  take_at n p s e = rw (← e) (take-append p s)

  pub drop_at : (n : ℕ) (p s : List A) → length p ≡ n → drop n (p ++ s) ≡ s
  drop_at n p s e = rw (← e) (drop-append p s)

  pub drop_next : (n : ℕ) (p s : List A) (c : A) → length p ≡ n → drop (suc n) (p ++ (c ∷ s)) ≡ s
  drop_next zero [] s c e = refl
  drop_next (suc n) [] s c e = absurd (omega arith)
  drop_next zero (x ∷ p) s c e = absurd (omega arith)
  drop_next (suc n) (x ∷ p) s c e = drop_next n p s c (omega arith)

  pub get_at :
      (n i k : ℕ) (p s : List A) → length p ≡ n → k ≡ n + i → get_elem? (p ++ s) k ≡ get_elem? s i
  get_at n i k [] s e q = ap (λ j. get_elem? s j) (omega arith)
  get_at n i zero (x ∷ p) s e q = absurd (omega arith)
  get_at n i (suc k) (x ∷ p) s e q = get_at (length p) i k p s refl (omega arith)

pub All-take : (n : ℕ) (xs : List ℕ) → All Byte xs → All Byte (take n xs)
All-take zero xs h = tt
All-take (suc n) [] h = tt
All-take (suc n) (x ∷ xs) h = (h.0, All-take n xs h.1)

pub All-drop : (n : ℕ) (xs : List ℕ) → All Byte xs → All Byte (drop n xs)
All-drop zero xs h = h
All-drop (suc n) [] h = tt
All-drop (suc n) (x ∷ xs) h = All-drop n xs h.1
