-- ===== src/BPlusTree/Order.antt =====
-- The leaves over sorted rows are those of a search tree.
use go_by_example.Prelude.{
  ◌≤◌, ◌≡◌, sym, subst, some, List, [], ◌∷◌, ◌++◌, Perm, All, All-map, arith,
}
use mathlib.Core.List.{flatten}
use mathlib.Core.List.Perm
use go_by_example.Prelude.Integers.{ℤ}
use go_by_example.Prelude.Sorting.{IsSorted}
use go_by_example.BPlusTree.{Kv, row_less, insert_row, sort_rows, build_leaves}
use go_by_example.BPlusTree.Leaves.{build_leaves_parts}

abbrev pub IsAscending : List Kv → Type 0
IsAscending rows = IsSorted (λ kv. kv.rev) rows

-- Within a leaf the revisions ascend, and none of its rows comes after a row of a later leaf.
abbrev pub InOrder : List (List Kv) → Type 0
InOrder [] = Unit
InOrder (l ∷ ls) =
    IsAscending l × All (λ kv. All (λ m. All (λ later. kv.rev ≤ later.rev) m) ls) l × InOrder ls

All-append : (P : Kv → Type 0) (xs ys : List Kv) → All P (xs ++ ys) → All P xs × All P ys
All-append P [] ys h = (tt, h)
All-append P (x ∷ xs) ys h = let (a, b) = All-append P xs ys h.1 in ((h.0, a), b)

All-flatten : (P : Kv → Type 0) (ls : List (List Kv)) → All P (flatten ls) → All (All P) ls
unfolding flatten
All-flatten P [] h = tt
All-flatten P (l ∷ ls) h = let (a, b) = All-append P l (flatten ls) h in (a, All-flatten P ls b)

append-IsAscending :
    (xs ys : List Kv)
    → IsAscending (xs ++ ys)
    → IsAscending xs × All (λ x. All (λ y. x.rev ≤ y.rev) ys) xs × IsAscending ys
append-IsAscending [] ys h = (tt, tt, h)
append-IsAscending (x ∷ xs) ys h =
    let (a, b, c) = append-IsAscending xs ys h.1 in
    let (d, e) = All-append (λ y. x.rev ≤ y.rev) xs ys h.0 in ((d, a), (e, b), c)

flatten-InOrder : (ls : List (List Kv)) → IsAscending (flatten ls) → InOrder ls
unfolding flatten
flatten-InOrder [] h = tt
flatten-InOrder (l ∷ ls) h =
    let (a, b, c) = append-IsAscending l (flatten ls) h in
    (a, All-map (λ kv k. All-flatten (λ later. kv.rev ≤ later.rev) ls k) l b, flatten-InOrder ls c)

All-le :
    (x y : Kv) (ys : List Kv)
    → x.rev ≤ y.rev
    → All (λ z. y.rev ≤ z.rev) ys
    → All (λ z. x.rev ≤ z.rev) ys
All-le x y [] h a = tt
All-le x y (z ∷ ys) h a = (omega arith, All-le x y ys h a.1)

All-insert_row :
    (P : Kv → Type 0) (x : Kv) (ys : List Kv) → P x → All P ys → All P (insert_row x ys)
unfolding insert_row
All-insert_row P x [] h a = (h, tt)
All-insert_row P x (y ∷ ys) h a = ground (arith, All-insert_row P x ys h a.1)

insert_row-IsAscending : (x : Kv) (ys : List Kv) → IsAscending ys → IsAscending (insert_row x ys)
unfolding insert_row row_less
insert_row-IsAscending x [] s = (tt, tt)
insert_row-IsAscending x (y ∷ ys) s = ground (
  arith,
  insert_row-IsAscending x ys s.1,
  All-le x y ys,
  All-insert_row (λ z. y.rev ≤ z.rev) x ys,
)

sort_rows-IsAscending : (xs : List Kv) → IsAscending (sort_rows xs)
unfolding sort_rows
sort_rows-IsAscending [] = tt
sort_rows-IsAscending (x ∷ xs) = insert_row-IsAscending x (sort_rows xs) (sort_rows-IsAscending xs)

insert_row-perm : (x : Kv) (ys : List Kv) → Perm (insert_row x ys) (x ∷ ys)
unfolding insert_row
insert_row-perm x [] = Perm.refl (x ∷ [])
insert_row-perm x (y ∷ ys) = ground (
  arith,
  Perm.refl (x ∷ y ∷ ys),
  Perm.trans (Perm.cons y (insert_row-perm x ys)) (Perm.swap x y ys),
)

sort_rows-perm : (xs : List Kv) → Perm (sort_rows xs) xs
unfolding sort_rows
sort_rows-perm [] = Perm.nil
sort_rows-perm (x ∷ xs) =
    Perm.trans (insert_row-perm x (sort_rows xs)) (Perm.cons x (sort_rows-perm xs))

-- The leaves of the sorted rows hold the rows, each as often as it occurs, in the order of a search
-- tree: the revisions ascend within a leaf and from a leaf to the later ones.
pub leaves-InOrder :
    (rows : List Kv) (page_size : ℤ) (leaves : List (List Kv))
    → build_leaves (sort_rows rows) page_size ≡ some leaves
    → InOrder leaves × Perm (flatten leaves) rows
leaves-InOrder rows page_size leaves e =
    let (whole, filled) = build_leaves_parts (sort_rows rows) page_size leaves e in
    (
      flatten-InOrder leaves (subst IsAscending (sym whole) (sort_rows-IsAscending rows)),
      subst (λ l. Perm l rows) (sym whole) (sort_rows-perm rows),
    )
