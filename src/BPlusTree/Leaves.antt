-- ===== src/BPlusTree/Leaves.antt =====
-- The leaves that buildLeaves cuts.
use go_by_example.Prelude.{
  ℕ, zero, suc, ◌+◌, ◌≤◌, ◌<◌, ◌≡◌, ◌≢◌, ◌∙◌, refl, ap, false, some, List, [], ◌∷◌, ◌++◌, length,
  take, drop, arith, length-drop, length-take-le, take-append-drop, Bool-cases, inl, inr, eqb,
  length-take, ◌⊎◌, subst,
}
use mathlib.Core.List.{flatten}
use go_by_example.Prelude.Integers.{ℤ, pos, negsuc}
use go_by_example.BPlusTree.{Kv, page_size_of, cut_leaves, capacity_is_negative, build_leaves}

-- every leaf has `size` rows, but the last one, which has from 1 to `size`
abbrev pub Filled : ℕ → List (List Kv) → Type 0
Filled size [] = Unit
Filled size (l ∷ []) = (1 ≤ length l) × (length l ≤ size)
Filled size (l ∷ m ∷ ls) = (length l ≡ size) × Filled size (m ∷ ls)

flatten-cut_leaves :
    (fuel size : ℕ) (rows : List Kv)
    → 0 < size
    → length rows ≤ fuel
    → flatten (cut_leaves fuel size rows) ≡ rows
unfolding cut_leaves flatten
flatten-cut_leaves zero size [] h le = refl
flatten-cut_leaves zero size (r ∷ rows) h le = absurd (omega arith)
flatten-cut_leaves (suc fuel) size [] h le = refl
flatten-cut_leaves (suc fuel) size (r ∷ rows) h le =
    ap (λ l. take size (r ∷ rows) ++ l)
      (flatten-cut_leaves fuel size (drop size (r ∷ rows)) h
        (omega (arith, length-drop size (r ∷ rows))))
    ∙ take-append-drop size (r ∷ rows)

Filled-cons :
    (size : ℕ) (l : List Kv) (ls : List (List Kv))
    → 1 ≤ length l
    → length l ≤ size
    → (ls ≢ [] → length l ≡ size)
    → Filled size ls
    → Filled size (l ∷ ls)
Filled-cons size l [] one le full h = (one, le)
Filled-cons size l (m ∷ ls) one le full h = (full (λ e. absurd (cc)), h)

cut_leaves-nil : (fuel size : ℕ) (rows : List Kv) → length rows ≡ 0 → cut_leaves fuel size rows ≡ []
unfolding cut_leaves
cut_leaves-nil zero size rows e = refl
cut_leaves-nil (suc fuel) size [] e = refl
cut_leaves-nil (suc fuel) size (r ∷ rows) e = absurd (omega arith)

length-take_of :
    (size : ℕ) (rows : List Kv) → 0 < size → 0 < length rows → 1 ≤ length (take size rows)
length-take_of zero rows h k = absurd (omega arith)
length-take_of (suc size) [] h k = absurd (omega arith)
length-take_of (suc size) (r ∷ rows) h k = omega arith

cut_leaves-Filled :
    (fuel size : ℕ) (rows : List Kv)
    → 0 < size
    → length rows ≤ fuel
    → Filled size (cut_leaves fuel size rows)
unfolding cut_leaves
cut_leaves-Filled zero size rows h le = tt
cut_leaves-Filled (suc fuel) size [] h le = tt
cut_leaves-Filled (suc fuel) size (r ∷ rows) h le =
    let shorter = length-drop size (r ∷ rows) in
    Filled-cons size (take size (r ∷ rows)) (cut_leaves fuel size (drop size (r ∷ rows)))
      (length-take_of size (r ∷ rows) h (omega arith)) (length-take-le size (r ∷ rows))
      (λ more. elim (Bool-cases (eqb (length (drop size (r ∷ rows))) 0)) [
        | inl none_left ↦
            absurd (more (cut_leaves-nil fuel size (drop size (r ∷ rows)) (ground arith)))
        | inr some_left ↦ length-take size (r ∷ rows) (ground arith)
      ])
      (cut_leaves-Filled fuel size (drop size (r ∷ rows)) h (omega arith))

pub page_size_of-pos : (page_size : ℤ) → 0 < page_size_of page_size
unfolding page_size_of
page_size_of-pos (negsuc n) = omega arith
page_size_of-pos (pos zero) = omega arith
page_size_of-pos (pos (suc n)) = omega arith

pub build_leaves_parts :
    (rows : List Kv) (page_size : ℤ) (leaves : List (List Kv))
    → build_leaves rows page_size ≡ some leaves
    → (flatten leaves ≡ rows) × Filled (page_size_of page_size) leaves
unfolding build_leaves
build_leaves_parts rows page_size leaves e = ground (
  arith,
  flatten-cut_leaves (length rows) (page_size_of page_size) rows (page_size_of-pos page_size),
  cut_leaves-Filled (length rows) (page_size_of page_size) rows (page_size_of-pos page_size),
)

-- the rows in a leaf for this argument of buildLeaves: as many as it says, or 4 if it is not positive
abbrev pub LeafSize : ℤ → ℕ → Type 0
LeafSize page_size size =
    ((0 < size) × (page_size ≡ pos size))
    ⊎ ((size ≡ 4) × ((page_size ≡ pos 0) ⊎ ((n : ℕ) × (page_size ≡ negsuc n))))

page_size_of-LeafSize :
    (page_size : ℤ) (size : ℕ) → LeafSize page_size size → page_size_of page_size ≡ size
unfolding page_size_of
page_size_of-LeafSize page_size zero (inl (positive, e)) = absurd (omega arith)
page_size_of-LeafSize page_size (suc n) (inl (positive, e)) = rw e refl
page_size_of-LeafSize page_size size (inr (four, inl e)) = rw (e, four) refl
page_size_of-LeafSize page_size size (inr (four, inr (n, e))) = rw (e, four) refl

-- What buildLeaves returns, by its own page size.
pub build_leaves_returns :
    (rows : List Kv) (page_size : ℤ)
    → length rows + page_size_of page_size ≤ 9223372036854775808
    → (leaves : List (List Kv)) × (build_leaves rows page_size ≡ some leaves)
      × (flatten leaves ≡ rows)
      × Filled (page_size_of page_size) leaves
unfolding build_leaves capacity_is_negative
build_leaves_returns rows page_size small =
    let size = page_size_of page_size in
    let positive = page_size_of-pos page_size in
    let fits : capacity_is_negative (length rows) size ≡ false = ground arith in
    (
      cut_leaves (length rows) size rows,
      rw fits refl,
      flatten-cut_leaves (length rows) size rows positive (omega arith),
      cut_leaves-Filled (length rows) size rows positive (omega arith),
    )

-- Where the number of rows and the page size add up to 2 ^ 63 at most, buildLeaves returns leaves
-- that hold the rows in order: every leaf has as many rows as the page size, or 4 where this is not
-- positive, and the last one has at least one row and no more than that.
pub build_leaves_lem :
    (rows : List Kv) (page_size : ℤ) (size : ℕ)
    → LeafSize page_size size
    → length rows + size ≤ 9223372036854775808
    → (leaves : List (List Kv)) × (build_leaves rows page_size ≡ some leaves)
      × (flatten leaves ≡ rows)
      × Filled size leaves
build_leaves_lem rows page_size size sized small =
    let e = page_size_of-LeafSize page_size size sized in
    let (leaves, built, whole, full) = build_leaves_returns rows page_size (rw e small) in
    (leaves, built, whole, subst (λ n. Filled n leaves) e full)
