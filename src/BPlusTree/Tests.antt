-- ===== src/BPlusTree/Tests.antt =====
-- Three rows with a page size of two.
use go_by_example.Prelude.{◌≡◌, refl, inl, true, some, List, [], ◌∷◌, Perm, arith}
use mathlib.Core.List.{flatten}
use go_by_example.Prelude.Integers.{pos}
use go_by_example.Prelude.Texts.{codes}
use go_by_example.BPlusTree.{Kv, row_less, sort_rows, build_leaves, escape_record_field, entry}
use go_by_example.BPlusTree.Leaves.{Filled, build_leaves_lem}
use go_by_example.BPlusTree.Order.{InOrder, leaves-InOrder}

abbrev first : Kv
first = record { rev = 2; key = b'a' ∷ []; val = [] }

abbrev second : Kv
second = record { rev = 2; key = b'b' ∷ []; val = [] }

abbrev third : Kv
third = record { rev = 10; key = b'a' ∷ []; val = b'1' ∷ [] }

abbrev rows : List Kv
rows = third ∷ second ∷ first ∷ []

abbrev leaves : List (List Kv)
leaves = (first ∷ second ∷ []) ∷ (third ∷ []) ∷ []

sorted : sort_rows rows ≡ first ∷ second ∷ third ∷ []
unfolding sort_rows row_less
sorted = refl

built : build_leaves (sort_rows rows) (pos 2) ≡ some leaves
unfolding build_leaves sort_rows row_less
built = refl

entry_10 : entry true third ≡ codes "10:a=1"
unfolding entry
entry_10 = refl

escaped : escape_record_field (codes "a|b") ≡ codes "a\\\\|b"
unfolding escape_record_field
escaped = refl

build_leaves_lem_example :
    (found : List (List Kv)) × (build_leaves rows (pos 2) ≡ some found)
    × (flatten found ≡ rows)
    × Filled 2 found
build_leaves_lem_example = build_leaves_lem rows (pos 2) 2 (inl (omega arith, refl)) (omega arith)

leaves-InOrder_example : InOrder leaves × Perm (flatten leaves) rows
leaves-InOrder_example = leaves-InOrder rows (pos 2) leaves built
