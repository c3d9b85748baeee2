-- ===== src/CowTree.antt =====
-- cow/main.go: binary search trees that share nodes after Clone and copy a node before they write
-- to it, unless its context is their own. Nodes and contexts are numbers of a heap.
pub mod Shapes
pub mod Upserts
pub mod Children
pub mod Refinement
pub mod Descent
pub mod Ending
pub mod Sharing
pub mod Clones
mod Tests
use go_by_example.Prelude.{
  ℕ, zero, suc, ◌+◌, Bool, true, false, Option, none, some, String, if◌then◌else◌, eqb,
}
use go_by_example.Prelude.Integers.{ℤ, less}

pub record Node : Type 0 where
  pub key : ℤ
  pub value : ℤ
  pub left : Option ℕ
  pub right : Option ℕ
  pub cow : ℕ

pub record Heap : Type 0 where
  pub node : ℕ → Node
  pub nodes : ℕ
  -- the tags of the contexts that were made
  pub tag : ℕ → String
  pub contexts : ℕ

pub record Tree : Type 0 where
  pub root : Option ℕ
  pub cow : ℕ

unfoldable pub set_node : ℕ → Node → Heap → Heap
set_node a n h = record h { node = λ (i : ℕ). if eqb i a then n else h.node i }

-- a new node, and the number of it
unfoldable pub new_node : Node → Heap → Heap × ℕ
unfolding set_node
new_node n h = (record (set_node h.nodes n h) { nodes = h.nodes + 1 }, h.nodes)

unfoldable pub new_context : String → Heap → Heap × ℕ
new_context tag h = (
  record h {
    tag = λ (i : ℕ). if eqb i h.contexts then tag else h.tag i;
    contexts = h.contexts + 1;
  },
  h.contexts,
)

unfoldable pub new_tree : String → Heap → Heap × Tree
unfolding new_context
new_tree tag h = ((new_context tag h).0, record { root = none; cow = (new_context tag h).1 })

-- Clone: the heap, the tree with its new context, and the clone
unfoldable pub clone : Tree → Heap → Heap × Tree × Tree
unfolding new_context
clone t h =
    let first = new_context (h.tag t.cow) h in
    let second = new_context (h.tag t.cow) first.0 in
    (second.0, record t { cow = first.1 }, record t { cow = second.1 })

-- mutableFor of a node that is not nil
unfoldable pub mutable_for : ℕ → ℕ → Heap → Heap × ℕ
unfolding new_node
mutable_for a cow h =
    if eqb (h.node a).cow cow then (h, a) else new_node (record (h.node a) { cow = cow }) h

unfoldable pub set_left : ℕ → ℕ → Heap → Heap
unfolding set_node
set_left a l h = set_node a (record (h.node a) { left = some l }) h

unfoldable pub set_right : ℕ → ℕ → Heap → Heap
unfolding set_node
set_right a r h = set_node a (record (h.node a) { right = some r }) h

unfoldable pub set_value : ℕ → ℤ → Heap → Heap
unfolding set_node
set_value a v h = set_node a (record (h.node a) { value = v }) h

abbrev pub leaf_node : ℤ → ℤ → ℕ → Node
leaf_node key value cow = record { key = key; value = value; left = none; right = none; cow = cow }

-- upsertNode, where `fuel` bounds the depth of the recursion
unfoldable pub upsert_node : ℕ → ℕ → ℤ → ℤ → ℕ → Heap → Option Heap
unfolding mutable_for set_left set_right set_value new_node
upsert_node zero a key value cow h = none
upsert_node (suc fuel) a key value cow h = elim (less key (h.node a).key) [
  | true ↦ elim (h.node a).left [
    | none ↦ let new = new_node (leaf_node key value cow) h in some (set_left a new.1 new.0)
    | some l ↦
        let own = mutable_for l cow h in
        upsert_node fuel own.1 key value cow (set_left a own.1 own.0)
  ]
  | false ↦ elim (less (h.node a).key key) [
    | true ↦ elim (h.node a).right [
      | none ↦ let new = new_node (leaf_node key value cow) h in some (set_right a new.1 new.0)
      | some r ↦
          let own = mutable_for r cow h in
          upsert_node fuel own.1 key value cow (set_right a own.1 own.0)
    ]
    | false ↦ some (set_value a value h)
  ]
]

unfoldable pub upsert : ℕ → ℤ → ℤ → Tree → Heap → Option (Heap × Tree)
unfolding upsert_node mutable_for new_node
upsert fuel key value t h = elim t.root [
  | none ↦
      let new = new_node (leaf_node key value t.cow) h in
      some (new.0, record t { root = some new.1 })
  | some a ↦
      let own = mutable_for a t.cow h in
      elim (upsert_node fuel own.1 key value t.cow own.0) [
        | none ↦ none
        | some h' ↦ some (h', record t { root = some own.1 })
      ]
]

-- the loop of Get; the outer `none` is fuel that did not suffice
unfoldable pub get_from : ℕ → ℤ → Option ℕ → Heap → Option (Option ℤ)
get_from fuel key none h = some none
get_from zero key (some a) h = none
get_from (suc fuel) key (some a) h = elim (less key (h.node a).key) [
  | true ↦ get_from fuel key (h.node a).left h
  | false ↦ elim (less (h.node a).key key) [
    | true ↦ get_from fuel key (h.node a).right h
    | false ↦ some (some (h.node a).value)
  ]
]

unfoldable pub get : ℕ → ℤ → Tree → Heap → Option (Option ℤ)
unfolding get_from
get fuel key t h = get_from fuel key t.root h
