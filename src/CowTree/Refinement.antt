-- ===== src/CowTree/Refinement.antt =====
-- What a call of upsertNode has to do, and the cases that end it.
use go_by_example.Prelude.{
  ℕ, ◌<◌, ◌≡◌, ◌≢◌, ◌∙◌, refl, ap, true, false, Option, some, if◌then◌else◌, eqb_iff, arith,
}
use go_by_example.Prelude.Integers.{ℤ, less, same_int, same_int_iff, less-same, less_irrefl}
use go_by_example.CowTree.{
  Heap, set_node, new_node, mutable_for, set_left, set_right, set_value, leaf_node,
}
use go_by_example.CowTree.Shapes.{
  Shape, leaf, branch, Each-both, Holds, Separate, find, Holds-made, Holds-branch, Holds-frame,
}
use go_by_example.CowTree.Upserts.{Grown, Owned, copy_old, new_there, new_in_use, le_new}
use go_by_example.CowTree.Children.{Child}

-- `t` has what `s` has, but for the key
abbrev pub Updates : ℤ → ℤ → Shape → Shape → Type 0
Updates key value s t = (k : ℤ) → find k t ≡ (if same_int k key then some value else find k s)

pub record Upserted (result : Option Heap) (a c : ℕ) (h : Heap) (s : Shape) (key value : ℤ)
    : Type 1 where
  pub heap : Heap
  pub shape : Shape
  pub ends : result ≡ some heap
  pub holds : Holds heap (some a) shape
  pub grows : Grown c h heap s shape
  pub updates : Updates key value s shape

pub left_Updates :
    (a : ℕ) (k v key value : ℤ) (l r t : Shape)
    → less key k ≡ true
    → Updates key value l t
    → Updates key value (branch a k v l r) (branch a k v t r)
unfolding find
left_Updates a k v key value l r t e u i = ground (arith, u i, same_int_iff i key)

pub right_Updates :
    (a : ℕ) (k v key value : ℤ) (l r t : Shape)
    → less key k ≡ false
    → less k key ≡ true
    → Updates key value r t
    → Updates key value (branch a k v l r) (branch a k v l t)
unfolding find
right_Updates a k v key value l r t e e' u i = ground (arith, u i, same_int_iff i key)

here_Updates :
    (a : ℕ) (k v key value : ℤ) (l r : Shape)
    → less key k ≡ false
    → less k key ≡ false
    → Updates key value (branch a k v l r) (branch a k value l r)
unfolding find
here_Updates a k v key value l r e e' i =
    ground (arith, same_int_iff i key, less-same i k, less-same key k)

-- a node where there was none
pub new_Updates : (n : ℕ) (key value : ℤ) → Updates key value leaf (branch n key value leaf leaf)
unfolding find
new_Updates n key value i = ground (arith, same_int_iff i key, less-same i key, less_irrefl key)

pub new-Child :
    (c : ℕ) (h : Heap) (key value : ℤ)
    → Child c h
        (new_node (leaf_node key value c) h).0
        h.nodes
        leaf
        (branch h.nodes key value leaf leaf)
new-Child c h key value =
    let n = leaf_node key value c in
    let h' = (new_node n h).0 in
    record {
      holds =
          Holds-branch h' h.nodes key value leaf leaf n (new_in_use h n) (new_there h n) refl refl
            refl refl;
      grows = record {
        separate = (tt, tt, tt, tt, tt);
        grown = λ P e f. (f h.nodes (omega arith), tt, tt);
        keeps = λ x lt e. copy_old h n x lt;
        keeps_foreign = λ x lt e. copy_old h n x lt;
        more = le_new h n;
      };
      keeps_all = copy_old h n;
    }

pub Owned-Child :
    (c b : ℕ) (h : Heap) (s : Shape) (own : Owned c b h s)
    → Child c h (mutable_for b c h).0 (mutable_for b c h).1 s own.shape
Owned-Child c b h s own = record { holds = own.holds; grows = own.grows; keeps_all = own.keeps_all }

-- what hanging a child below `a` leaves
pub set_left-other : (a b : ℕ) (h : Heap) (x : ℕ) → x ≢ a → (set_left a b h).node x ≡ h.node x
unfolding set_left set_node
set_left-other a b h x ne = ground (arith, eqb_iff x a)

pub set_left-cow : (a b : ℕ) (h : Heap) (x : ℕ) → ((set_left a b h).node x).cow ≡ (h.node x).cow
unfolding set_left set_node
set_left-cow a b h x = ground (arith, eqb_iff x a)

pub set_left-nodes : (a b : ℕ) (h : Heap) → (set_left a b h).nodes ≡ h.nodes
unfolding set_left set_node
set_left-nodes a b h = refl

pub set_right-other : (a b : ℕ) (h : Heap) (x : ℕ) → x ≢ a → (set_right a b h).node x ≡ h.node x
unfolding set_right set_node
set_right-other a b h x ne = ground (arith, eqb_iff x a)

pub set_right-cow : (a b : ℕ) (h : Heap) (x : ℕ) → ((set_right a b h).node x).cow ≡ (h.node x).cow
unfolding set_right set_node
set_right-cow a b h x = ground (arith, eqb_iff x a)

pub set_right-nodes : (a b : ℕ) (h : Heap) → (set_right a b h).nodes ≡ h.nodes
unfolding set_right set_node
set_right-nodes a b h = refl

-- writing the value of `a` itself
pub here :
    (c a : ℕ) (h : Heap) (l r : Shape) (k v key value : ℤ)
    → Holds h (some a) (branch a k v l r)
    → Separate (branch a k v l r)
    → (h.node a).cow ≡ c
    → less key k ≡ false
    → less k key ≡ false
    → Upserted (some (set_value a value h)) a c h (branch a k v l r) key value
unfolding set_value set_node
here c a h l r k v key value held sep owner e e' =
    let u = set_value a value h in
    let other : (x : ℕ) → x < h.nodes → x ≢ a → u.node x ≡ h.node x =
      λ x lt ne. ground (arith, eqb_iff x a) in
    record {
      heap = u;
      shape = branch a k value l r;
      ends = refl;
      holds =
          Holds-branch u a k value l r (record (h.node a) { value = value }) held.1
            (ground (arith, eqb_iff a a)) held.2 refl
            (Holds-frame h u (h.node a).left l (omega arith)
              (Each-both other l (Holds-made h (h.node a).left l held.4) sep.0) held.4)
            (Holds-frame h u (h.node a).right r (omega arith)
              (Each-both other r (Holds-made h (h.node a).right r held.5) sep.1) held.5);
      grows = record {
        separate = sep;
        grown = λ P p f. p;
        keeps = λ x lt p. other x lt p.0;
        keeps_foreign =
            λ x lt foreign. other x lt (λ q. foreign (ap (λ i. (h.node i).cow) q ∙ owner));
        more = omega arith;
      };
      updates = here_Updates a k v key value l r e e';
    }
