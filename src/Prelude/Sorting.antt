-- ===== src/Prelude/Sorting.antt =====
-- `sort.Slice` by a numeric key, as an insertion sort: its result is ordered and a permutation.
use mathlib.Core.Logic.{∥∥₁_elim}
use mathlib.Core.Path.{ap₂, refl, ◌≡◌, ◌∙◌}
use Prim.Native.Nat.{ℕ, ◌≤◌}
use mathlib.Core.List.{List, [], ◌∷◌, Perm, Permᴰ}
use mathlib.Core.List.Perm
use mathlib.Core.List
use native.Mathlib.Nat.{ℕ_set}
use native.Mathlib.Omega.{arith}
use go_by_example.Prelude.Tests.{leb, if◌then◌else◌}
use go_by_example.Prelude.Lists.{All}

module _ {ℓ} {A : Type ℓ} (key : A → ℕ) where
  unfoldable pub insert : A → List A → List A
  insert x [] = x ∷ []
  insert x (y ∷ ys) = if leb (key x) (key y) then x ∷ y ∷ ys else y ∷ insert x ys

  unfoldable pub sort : List A → List A
  unfolding insert
  sort [] = []
  sort (x ∷ xs) = insert x (sort xs)

  abbrev pub IsSorted : List A → Type 0
  IsSorted [] = Unit
  IsSorted (x ∷ xs) = All (λ y. key x ≤ key y) xs × IsSorted xs

  All-le :
      (x y : A) (ys : List A)
      → key x ≤ key y
      → All (λ z. key y ≤ key z) ys
      → All (λ z. key x ≤ key z) ys
  All-le x y [] h a = tt
  All-le x y (z ∷ ys) h a = (omega arith, All-le x y ys h a.1)

  All-insert : (P : A → Type 0) (x : A) (ys : List A) → P x → All P ys → All P (insert x ys)
  unfolding insert
  All-insert P x [] h a = (h, tt)
  All-insert P x (y ∷ ys) h a = ground (arith, All-insert P x ys h a.1)

  All-of_insert : (P : A → Type 0) (x : A) (ys : List A) → All P (insert x ys) → P x × All P ys
  unfolding insert
  All-of_insert P x [] a = a
  All-of_insert P x (y ∷ ys) a = ground (arith, All-of_insert P x ys)

  -- What holds of the sorted elements holds of the elements, and the other way round.
  pub All-sort : (P : A → Type 0) (xs : List A) → All P xs → All P (sort xs)
  unfolding sort
  All-sort P [] a = tt
  All-sort P (x ∷ xs) a = All-insert P x (sort xs) a.0 (All-sort P xs a.1)

  pub All-of_sort : (P : A → Type 0) (xs : List A) → All P (sort xs) → All P xs
  unfolding sort
  All-of_sort P [] a = tt
  All-of_sort P (x ∷ xs) a =
      let (h, rest) = All-of_insert P x (sort xs) a in (h, All-of_sort P xs rest)

  pub insert-IsSorted : (x : A) (ys : List A) → IsSorted ys → IsSorted (insert x ys)
  unfolding insert
  insert-IsSorted x [] s = (tt, tt)
  insert-IsSorted x (y ∷ ys) s =
      ground (arith, insert-IsSorted x ys s.1, All-le x y ys, All-insert (λ z. key y ≤ key z) x ys)

  pub sort-IsSorted : (xs : List A) → IsSorted (sort xs)
  unfolding sort
  sort-IsSorted [] = tt
  sort-IsSorted (x ∷ xs) = insert-IsSorted x (sort xs) (sort-IsSorted xs)

  insert-perm : (x : A) (ys : List A) → Perm (insert x ys) (x ∷ ys)
  unfolding insert
  insert-perm x [] = Perm.refl (x ∷ [])
  insert-perm x (y ∷ ys) = ground (
    arith,
    Perm.refl (x ∷ y ∷ ys),
    Perm.trans (Perm.cons y (insert-perm x ys)) (Perm.swap x y ys),
  )

  pub sort-perm : (xs : List A) → Perm (sort xs) xs
  unfolding sort
  sort-perm [] = Perm.nil
  sort-perm (x ∷ xs) = Perm.trans (insert-perm x (sort xs)) (Perm.cons x (sort-perm xs))

-- Numbers sort to one list, in whatever order they come.
insert_comm :
    (x y : ℕ) (l : List ℕ)
    → insert (λ i. i) x (insert (λ i. i) y l) ≡ insert (λ i. i) y (insert (λ i. i) x l)
unfolding insert
insert_comm x y [] = ground arith
insert_comm x y (z ∷ l) = ground (arith, insert_comm x y l)

sort-of_permᴰ : {xs ys : List ℕ} → Permᴰ xs ys → sort (λ i. i) xs ≡ sort (λ i. i) ys
unfolding sort
sort-of_permᴰ Permᴰ.nil = refl
sort-of_permᴰ (Permᴰ.cons e p) = ap₂ (insert (λ i. i)) e (sort-of_permᴰ p)
sort-of_permᴰ (Permᴰ.swap {a} {b} {l = l} e f) =
    insert_comm a b (sort (λ i. i) l)
    ∙ ap₂ (λ x y. insert (λ i. i) x (insert (λ i. i) y (sort (λ i. i) l))) f e
sort-of_permᴰ (Permᴰ.trans p q) = sort-of_permᴰ p ∙ sort-of_permᴰ q

pub sort-of_perm : {xs ys : List ℕ} → Perm xs ys → sort (λ i. i) xs ≡ sort (λ i. i) ys
sort-of_perm {xs} {ys} p =
    ∥∥₁_elim p (List.is_set ℕ_set (sort (λ i. i) xs) (sort (λ i. i) ys)) sort-of_permᴰ
