-- ===== src/CowTree/Sharing.antt =====
-- Proofs about Upsert on a whole tree and on the trees that share its nodes.
use go_by_example.Prelude.{
  ℕ, ◌≤◌, ◌<◌, ◌≡◌, ◌≢◌, ◌∙◌, inl, inr, refl, sym, ap, none, some, if◌then◌else◌, arith,
  Option-cases, subst,
}
use go_by_example.Prelude.Integers.{ℤ, same_int}
use go_by_example.CowTree.{Heap, Tree, new_node, mutable_for, leaf_node, upsert_node, upsert, get}
use go_by_example.CowTree.Shapes.{
  Shape, leaf, branch, Each, Each-both, Holds, Separate, find, depth, Holds-made, Holds-frame,
  get_from_lem,
}
use go_by_example.CowTree.Upserts.{owned}
use go_by_example.CowTree.Refinement.{Updates, new_Updates, new-Child}
use go_by_example.CowTree.Ending.{upsert_node_lem}

-- The heap holds the tree as `s`.
abbrev pub Has : Heap → Tree → Shape → Type 0
Has h t s = Holds h t.root s × Separate s

-- What a call of Upsert that ends has done.
record Done (fuel : ℕ) (key value : ℤ) (t : Tree) (h : Heap) (s : Shape) : Type 0 where
  heap : Heap
  tree : Tree
  shape : Shape
  ends : upsert fuel key value t h ≡ some (heap, tree)
  has : Has heap tree shape
  same_cow : tree.cow ≡ t.cow
  updates : Updates key value s shape
  keeps_foreign : (x : ℕ) → x < h.nodes → (h.node x).cow ≢ t.cow → heap.node x ≡ h.node x
  more : h.nodes ≤ heap.nodes

new-Holds :
    (c : ℕ) (h : Heap) (key value : ℤ)
    → Holds
        (new_node (leaf_node key value c) h).0
        (some (new_node (leaf_node key value c) h).1)
        (branch h.nodes key value leaf leaf)
unfolding new_node
new-Holds c h key value = (new-Child c h key value).holds

empty_shape : (h : Heap) (s : Shape) → Holds h none s → s ≡ leaf
empty_shape h leaf e = refl
empty_shape h (branch a k v l r) held = ground (arith, held.0)

after_root :
    (fuel a : ℕ) (key value : ℤ) (t : Tree) (h u : Heap)
    → t.root ≡ some a
    → upsert_node fuel (mutable_for a t.cow h).1 key value t.cow (mutable_for a t.cow h).0 ≡ some u
    → upsert fuel key value t h ≡ some (u, record t { root = some (mutable_for a t.cow h).1 })
unfolding upsert
after_root fuel a key value t h u e e' = ground arith

upsert_empty :
    (fuel : ℕ) (key value : ℤ) (t : Tree) (h : Heap) → t.root ≡ none → Done fuel key value t h leaf
unfolding upsert
upsert_empty fuel key value t h e =
    let n = leaf_node key value t.cow in
    let child = new-Child t.cow h key value in
    record {
      heap = (new_node n h).0;
      tree = record t { root = some (new_node n h).1 };
      shape = branch h.nodes key value leaf leaf;
      ends = ground arith;
      has = (new-Holds t.cow h key value, child.grows.separate);
      same_cow = refl;
      updates = new_Updates h.nodes key value;
      keeps_foreign = λ x lt foreign. child.keeps_all x lt;
      more = child.grows.more;
    }

upsert_root :
    (fuel a : ℕ) (key value : ℤ) (t : Tree) (h : Heap) (s : Shape)
    → t.root ≡ some a
    → Has h t s
    → depth s ≤ fuel
    → Done fuel key value t h s
unfolding upsert
upsert_root fuel a key value t h s e has d =
    let own = owned t.cow a h s (subst (λ p. Holds h p s) e has.0) has.1 in
    let m = mutable_for a t.cow h in
    let up =
      upsert_node_lem fuel m.1 t.cow m.0 own.shape key value own.holds own.grows.separate own.owns
        (omega (arith, d, own.same_depth)) in
    record {
      heap = up.heap;
      tree = record t { root = some m.1 };
      shape = up.shape;
      ends = after_root fuel a key value t h up.heap e up.ends;
      has = (up.holds, up.grows.separate);
      same_cow = refl;
      updates =
          λ i. up.updates i ∙ ap (λ o. if same_int i key then some value else o) (own.same_find i);
      keeps_foreign = λ x lt foreign.
          let old = own.grows.keeps_foreign x lt foreign in
          up.grows.keeps_foreign x (omega (arith, own.grows.more))
            (λ q. foreign (sym (ap (λ n. n.cow) old) ∙ q))
          ∙ old;
      more = omega (arith, own.grows.more, up.grows.more);
    }

done :
    (fuel : ℕ) (key value : ℤ) (t : Tree) (h : Heap) (s : Shape)
    → Has h t s
    → depth s ≤ fuel
    → Done fuel key value t h s
done fuel key value t h s has d = elim (Option-cases t.root) [
  | inl e ↦
      let no_shape = empty_shape h s (subst (λ p. Holds h p s) e has.0) in
      subst (Done fuel key value t h) (sym no_shape) (upsert_empty fuel key value t h e)
  | inr (a, e) ↦ upsert_root fuel a key value t h s e has d
]

-- Upsert of a tree that the heap holds, with fuel for its depth, ends with a tree in which Get,
-- with fuel for the depth of the new tree, finds the value at the key, and what the old tree has at
-- every other key.
pub upsert-get :
    (fuel : ℕ) (key value : ℤ) (t : Tree) (h : Heap) (s : Shape)
    → Has h t s
    → depth s ≤ fuel
    → (u : Heap) × (t' : Tree) × (s' : Shape) × (upsert fuel key value t h ≡ some (u, t'))
      × Has u t' s'
      × ((n : ℕ) (k : ℤ)
          → depth s' ≤ n
          → get n k t' u ≡ some (if same_int k key then some value else find k s))
unfolding get
upsert-get fuel key value t h s has d =
    let v = done fuel key value t h s has d in
    (
      v.heap,
      v.tree,
      v.shape,
      v.ends,
      v.has,
      λ n k le. get_from_lem n k v.tree.root v.heap v.shape v.has.0 le ∙ ap some (v.updates k),
    )

-- none of the nodes of the tree is of the context
abbrev pub Foreign : Heap → ℕ → Shape → Type 0
Foreign h c = Each (λ x. (h.node x).cow ≢ c)

-- Upsert of a tree leaves alone every other tree none of whose nodes are of the context of the tree
-- that is written to: Get, with fuel for the depth of that other tree, finds there what it found
-- before, and its nodes are still not of that context.
pub upsert_isolated :
    (fuel : ℕ) (key value : ℤ) (t other : Tree) (h : Heap) (s o : Shape)
    → Has h t s
    → depth s ≤ fuel
    → Has h other o
    → Foreign h t.cow o
    → (u : Heap) × (t' : Tree) × (upsert fuel key value t h ≡ some (u, t'))
      × Has u other o
      × Foreign u t'.cow o
      × ((n : ℕ) (k : ℤ) → depth o ≤ n → get n k other u ≡ get n k other h)
unfolding get
upsert_isolated fuel key value t other h s o has d has_other foreign =
    let v = done fuel key value t h s has d in
    let stay = Each-both v.keeps_foreign o (Holds-made h other.root o has_other.0) foreign in
    let held = Holds-frame h v.heap other.root o v.more stay has_other.0 in
    (
      v.heap,
      v.tree,
      v.ends,
      (held, has_other.1),
      Each-both (λ x e ne q. ne (sym (ap (λ n. n.cow) e) ∙ q ∙ v.same_cow)) o stay foreign,
      λ n k le.
          get_from_lem n k other.root v.heap o held le
          ∙ sym (get_from_lem n k other.root h o has_other.0 le),
    )
