-- ===== src/CowTree/Descent.antt =====
-- The two ways to go down from a node, to a new node and to one that is there.
use go_by_example.Prelude.{
  ℕ, ◌≡◌, ◌≢◌, ◌∙◌, refl, ap, true, false, Option, some, if◌then◌else◌, arith,
}
use go_by_example.Prelude.Integers.{ℤ, less, same_int}
use go_by_example.CowTree.{Heap, new_node, mutable_for, set_left, set_right, leaf_node}
use go_by_example.CowTree.Shapes.{Shape, leaf, branch, Each-map, Holds, Separate, Holds-frame}
use go_by_example.CowTree.Upserts.{Grown-refl, Owned}
use go_by_example.CowTree.Children.{left_Holds, left_Grown, right_Holds, right_Grown}
use go_by_example.CowTree.Refinement.{
  Upserted, left_Updates, right_Updates, new_Updates, new-Child, Owned-Child, set_left-other,
  set_left-nodes, set_right-other, set_right-nodes,
}

-- a new node as the left child
pub left_new :
    (c a : ℕ) (h : Heap) (r : Shape) (k v key value : ℤ)
    → Holds h (some a) (branch a k v leaf r)
    → Separate (branch a k v leaf r)
    → (h.node a).cow ≡ c
    → less key k ≡ true
    → Upserted
        (some (
          set_left a (new_node (leaf_node key value c) h).1 (new_node (leaf_node key value c) h).0))
        a
        c
        h
        (branch a k v leaf r)
        key
        value
unfolding new_node set_left
left_new c a h r k v key value held sep owner e =
    let n = leaf_node key value c in
    let h' = (new_node n h).0 in
    let u = set_left a (new_node n h).1 h' in
    let child = new-Child c h key value in
    let new = branch h.nodes key value leaf leaf in
    let later = Grown-refl c u new (tt, tt, tt, tt, tt) in
    let holds =
      Holds-frame h' u (some h.nodes) new (omega (arith, set_left-nodes a h.nodes h'))
        (set_left-other a h.nodes h' h.nodes (λ q. omega (arith, held.1)), tt, tt) child.holds in
    record {
      heap = u;
      shape = (branch a k v new r);
      ends = refl;
      holds = left_Holds c a h.nodes k v h h' u leaf r new new held sep owner child later holds;
      grows = left_Grown c a h.nodes k v h h' u leaf r new new held sep owner child later holds;
      updates = left_Updates a k v key value leaf r new e (new_Updates h.nodes key value);
    }

-- the left child, after the recursive call
pub left_call :
    (c a b : ℕ) (h : Heap) (l r : Shape) (k v key value : ℤ) (result : Option Heap)
    → Holds h (some a) (branch a k v l r)
    → Separate (branch a k v l r)
    → (h.node a).cow ≡ c
    → less key k ≡ true
    → (own : Owned c b h l)
    → Upserted result
        (mutable_for b c h).1
        c
        (set_left a (mutable_for b c h).1 (mutable_for b c h).0)
        own.shape
        key
        value
    → Upserted result a c h (branch a k v l r) key value
left_call c a b h l r k v key value result held sep owner e own later =
    let m = mutable_for b c h in
    record {
      heap = later.heap;
      shape = (branch a k v later.shape r);
      ends = later.ends;
      holds =
          left_Holds c a m.1 k v h m.0 later.heap l r own.shape later.shape held sep owner
            (Owned-Child c b h l own) later.grows later.holds;
      grows =
          left_Grown c a m.1 k v h m.0 later.heap l r own.shape later.shape held sep owner
            (Owned-Child c b h l own) later.grows later.holds;
      updates = left_Updates a k v key value l r later.shape e (λ i.
          later.updates i ∙ ap (λ o. if same_int i key then some value else o) (own.same_find i));
    }

-- the child is ready for the recursive call
pub left_ready :
    (c a b : ℕ) (h : Heap) (l r : Shape) (k v : ℤ)
    → Holds h (some a) (branch a k v l r)
    → Separate (branch a k v l r)
    → (own : Owned c b h l)
    → Holds
        (set_left a (mutable_for b c h).1 (mutable_for b c h).0)
        (some (mutable_for b c h).1)
        own.shape
left_ready c a b h l r k v held sep own =
    let m = mutable_for b c h in
    Holds-frame m.0 (set_left a m.1 m.0) (some m.1) own.shape
      (omega (arith, set_left-nodes a m.1 m.0))
      (Each-map (λ x ne. set_left-other a m.1 m.0 x ne) own.shape
        (own.grows.grown (λ x. x ≢ a) sep.0 (λ x le q. omega (arith, held.1))))
      own.holds

-- a new node as the right child
pub right_new :
    (c a : ℕ) (h : Heap) (l : Shape) (k v key value : ℤ)
    → Holds h (some a) (branch a k v l leaf)
    → Separate (branch a k v l leaf)
    → (h.node a).cow ≡ c
    → less key k ≡ false
    → less k key ≡ true
    → Upserted
        (some (
          set_right a
            (new_node (leaf_node key value c) h).1
            (new_node (leaf_node key value c) h).0))
        a
        c
        h
        (branch a k v l leaf)
        key
        value
unfolding new_node set_right
right_new c a h l k v key value held sep owner e e' =
    let n = leaf_node key value c in
    let h' = (new_node n h).0 in
    let u = set_right a (new_node n h).1 h' in
    let child = new-Child c h key value in
    let new = branch h.nodes key value leaf leaf in
    let later = Grown-refl c u new (tt, tt, tt, tt, tt) in
    let holds =
      Holds-frame h' u (some h.nodes) new (omega (arith, set_right-nodes a h.nodes h'))
        (set_right-other a h.nodes h' h.nodes (λ q. omega (arith, held.1)), tt, tt) child.holds in
    record {
      heap = u;
      shape = (branch a k v l new);
      ends = refl;
      holds = right_Holds c a h.nodes k v h h' u l leaf new new held sep owner child later holds;
      grows = right_Grown c a h.nodes k v h h' u l leaf new new held sep owner child later holds;
      updates = right_Updates a k v key value l leaf new e e' (new_Updates h.nodes key value);
    }

-- the right child, after the recursive call
pub right_call :
    (c a b : ℕ) (h : Heap) (l r : Shape) (k v key value : ℤ) (result : Option Heap)
    → Holds h (some a) (branch a k v l r)
    → Separate (branch a k v l r)
    → (h.node a).cow ≡ c
    → less key k ≡ false
    → less k key ≡ true
    → (own : Owned c b h r)
    → Upserted result
        (mutable_for b c h).1
        c
        (set_right a (mutable_for b c h).1 (mutable_for b c h).0)
        own.shape
        key
        value
    → Upserted result a c h (branch a k v l r) key value
right_call c a b h l r k v key value result held sep owner e e' own later =
    let m = mutable_for b c h in
    record {
      heap = later.heap;
      shape = (branch a k v l later.shape);
      ends = later.ends;
      holds =
          right_Holds c a m.1 k v h m.0 later.heap l r own.shape later.shape held sep owner
            (Owned-Child c b h r own) later.grows later.holds;
      grows =
          right_Grown c a m.1 k v h m.0 later.heap l r own.shape later.shape held sep owner
            (Owned-Child c b h r own) later.grows later.holds;
      updates = right_Updates a k v key value l r later.shape e e' (λ i.
          later.updates i ∙ ap (λ o. if same_int i key then some value else o) (own.same_find i));
    }

-- the child is ready for the recursive call
pub right_ready :
    (c a b : ℕ) (h : Heap) (l r : Shape) (k v : ℤ)
    → Holds h (some a) (branch a k v l r)
    → Separate (branch a k v l r)
    → (own : Owned c b h r)
    → Holds
        (set_right a (mutable_for b c h).1 (mutable_for b c h).0)
        (some (mutable_for b c h).1)
        own.shape
right_ready c a b h l r k v held sep own =
    let m = mutable_for b c h in
    Holds-frame m.0 (set_right a m.1 m.0) (some m.1) own.shape
      (omega (arith, set_right-nodes a m.1 m.0))
      (Each-map (λ x ne. set_right-other a m.1 m.0 x ne) own.shape
        (own.grows.grown (λ x. x ≢ a) sep.1 (λ x le q. omega (arith, held.1))))
      own.holds
