-- ===== src/CowTree/Tests.antt =====
-- The tree that main builds, its clone, and a write to the clone.
use go_by_example.Prelude.{ℕ, ◌≤◌, ◌≡◌, refl, some, if◌then◌else◌, arith, zero, suc}
use go_by_example.Prelude.Integers.{ℤ, pos, same_int}
use go_by_example.CowTree.{Node, Heap, Tree, leaf_node, upsert, get, clone}
use go_by_example.CowTree.Shapes.{Shape, leaf, branch, find, depth}
use go_by_example.CowTree.Sharing.{Has, Foreign, upsert-get}
use go_by_example.CowTree.Clones.{Made, clone_isolates}

-- nodes 0, 1 and 2 hold 10, 5 and 15, and are of context 0
abbrev node_at : ℕ → Node
node_at zero = record { key = pos 10; value = pos 100; left = some 1; right = some 2; cow = 0 }
node_at (suc zero) = leaf_node (pos 5) (pos 50) 0
node_at (suc (suc _)) = leaf_node (pos 15) (pos 150) 0

abbrev heap : Heap
heap = record { node = node_at; nodes = 3; tag = λ (i : ℕ). "origin-cow"; contexts = 1 }

abbrev origin : Tree
origin = record { root = some 0; cow = 0 }

-- a second tree with the same nodes, of a context of its own
abbrev copy : Tree
copy = record { root = some 0; cow = 1 }

abbrev shape : Shape
shape =
    branch 0 (pos 10) (pos 100) (branch 1 (pos 5) (pos 50) leaf leaf)
      (branch 2 (pos 15) (pos 150) leaf leaf)

origin-Has : Has heap origin shape
origin-Has = (
  (
    refl,
    omega arith,
    refl,
    refl,
    (refl, omega arith, refl, refl, refl, refl),
    (refl, omega arith, refl, refl, refl, refl),
  ),
  (
    ((λ q. omega arith), tt, tt),
    ((λ q. omega arith), tt, tt),
    (((λ q. omega arith), tt, tt), tt, tt),
    (tt, tt, tt, tt, tt),
    (tt, tt, tt, tt, tt),
  ),
)

origin_deep : depth shape ≤ 5
unfolding depth
origin_deep = omega arith

origin-Made : Made heap shape
origin-Made = (omega arith, (omega arith, tt, tt), (omega arith, tt, tt))

copy-Foreign : Foreign heap copy.cow shape
copy-Foreign = ((λ q. omega arith), ((λ q. omega arith), tt, tt), ((λ q. omega arith), tt, tt))

upsert-get_example :
    (u : Heap) × (t' : Tree) × (s' : Shape) × (upsert 5 (pos 5) (pos 500) origin heap
      ≡ some (u, t'))
    × Has u t' s'
    × ((n : ℕ) (k : ℤ)
        → depth s' ≤ n
        → get n k t' u ≡ some (if same_int k (pos 5) then some (pos 500) else find k shape))
upsert-get_example = upsert-get 5 (pos 5) (pos 500) origin heap shape origin-Has origin_deep

clone_isolates_example :
    ((u : Heap) × (t' : Tree) × (upsert 5
          (pos 5)
          (pos 500)
          (clone origin heap).1
          (clone origin heap).0
        ≡ some (u, t'))
      × ((n : ℕ) (k : ℤ) → depth shape ≤ n → get n k (clone origin heap).2 u ≡ get n k origin heap))
    × ((u : Heap) × (t' : Tree) × (upsert 5
            (pos 5)
            (pos 500)
            (clone origin heap).2
            (clone origin heap).0
          ≡ some (u, t'))
        × ((n : ℕ) (k : ℤ)
            → depth shape ≤ n
            → get n k (clone origin heap).1 u ≡ get n k origin heap))
clone_isolates_example =
    clone_isolates 5 (pos 5) (pos 500) origin heap shape origin-Has origin-Made origin_deep
