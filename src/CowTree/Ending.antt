-- ===== src/CowTree/Ending.antt =====
-- The recursion of upsertNode, by its fuel.
use go_by_example.Prelude.{
  ℕ, zero, suc, ◌≤◌, ◌≡◌, ◌∙◌, inl, inr, sym, ap, true, false, Option, none, some, arith,
  Bool-cases, subst,
}
use go_by_example.Prelude.Integers.{ℤ, less}
use go_by_example.CowTree.{
  Heap, new_node, mutable_for, set_left, set_right, set_value, leaf_node, upsert_node,
}
use go_by_example.CowTree.Shapes.{Shape, leaf, branch, Holds, Separate, depth}
use go_by_example.CowTree.Upserts.{owned}
use go_by_example.CowTree.Refinement.{Upserted}
use go_by_example.CowTree.Refinement.{here, set_left-cow, set_right-cow}
use go_by_example.CowTree.Descent.{
  left_new, left_call, left_ready, right_new, right_call, right_ready,
}

-- another way to write the result
recast :
    (a c : ℕ) (h : Heap) (s : Shape) (key value : ℤ) (x y : Option Heap)
    → x ≡ y
    → Upserted y a c h s key value
    → Upserted x a c h s key value
recast a c h s key value x y e up = record {
  heap = up.heap;
  shape = up.shape;
  ends = e ∙ up.ends;
  holds = up.holds;
  grows = up.grows;
  updates = up.updates;
}

-- the theorem at one fuel
abbrev Below : ℕ → Type 1
Below fuel =
    (a c : ℕ) (h : Heap) (s : Shape) (key value : ℤ)
    → Holds h (some a) s
    → Separate s
    → (h.node a).cow ≡ c
    → depth s ≤ fuel
    → Upserted (upsert_node fuel a key value c h) a c h s key value

turn_left :
    (fuel a : ℕ) (key value : ℤ) (c : ℕ) (h : Heap)
    → less key (h.node a).key ≡ true
    → (h.node a).left ≡ none
    → upsert_node (suc fuel) a key value c h
      ≡ some
          (set_left a (new_node (leaf_node key value c) h).1 (new_node (leaf_node key value c) h).0)
unfolding upsert_node
turn_left fuel a key value c h e n = ground arith

turn_right :
    (fuel a : ℕ) (key value : ℤ) (c : ℕ) (h : Heap)
    → less key (h.node a).key ≡ false
    → less (h.node a).key key ≡ true
    → (h.node a).right ≡ none
    → upsert_node (suc fuel) a key value c h
      ≡ some (
          set_right a (new_node (leaf_node key value c) h).1 (new_node (leaf_node key value c) h).0)
unfolding upsert_node
turn_right fuel a key value c h e e' n = ground arith

follow_left :
    (fuel a b : ℕ) (key value : ℤ) (c : ℕ) (h : Heap)
    → less key (h.node a).key ≡ true
    → (h.node a).left ≡ some b
    → upsert_node (suc fuel) a key value c h
      ≡ upsert_node fuel
          (mutable_for b c h).1
          key
          value
          c
          (set_left a (mutable_for b c h).1 (mutable_for b c h).0)
unfolding upsert_node
follow_left fuel a b key value c h e n = ground arith

follow_right :
    (fuel a b : ℕ) (key value : ℤ) (c : ℕ) (h : Heap)
    → less key (h.node a).key ≡ false
    → less (h.node a).key key ≡ true
    → (h.node a).right ≡ some b
    → upsert_node (suc fuel) a key value c h
      ≡ upsert_node fuel
          (mutable_for b c h).1
          key
          value
          c
          (set_right a (mutable_for b c h).1 (mutable_for b c h).0)
unfolding upsert_node
follow_right fuel a b key value c h e e' n = ground arith

turn_here :
    (fuel a : ℕ) (key value : ℤ) (c : ℕ) (h : Heap)
    → less key (h.node a).key ≡ false
    → less (h.node a).key key ≡ false
    → upsert_node (suc fuel) a key value c h ≡ some (set_value a value h)
unfolding upsert_node
turn_here fuel a key value c h e e' = ground arith

left_step :
    (fuel a c : ℕ) (h : Heap) (l r : Shape) (k v key value : ℤ)
    → Below fuel
    → Holds h (some a) (branch a k v l r)
    → Separate (branch a k v l r)
    → (h.node a).cow ≡ c
    → depth (branch a k v l r) ≤ suc fuel
    → less key k ≡ true
    → Upserted (upsert_node (suc fuel) a key value c h) a c h (branch a k v l r) key value
unfolding depth
left_step fuel a c h leaf r k v key value below held sep owner d e =
    recast a c h (branch a k v leaf r) key value (upsert_node (suc fuel) a key value c h)
      (some
        (set_left a (new_node (leaf_node key value c) h).1 (new_node (leaf_node key value c) h).0))
      (turn_left fuel a key value c h (ap (less key) held.2 ∙ e) held.4)
      (left_new c a h r k v key value held sep owner e)
left_step fuel a c h (branch b k' v' l' r') r k v key value below held sep owner d e =
    let child = branch b k' v' l' r' in
    let own = owned c b h child (subst (λ o. Holds h o child) held.4.0 held.4) sep.3 in
    let m = mutable_for b c h in
    let h' = set_left a m.1 m.0 in
    recast a c h (branch a k v child r) key value (upsert_node (suc fuel) a key value c h)
      (upsert_node fuel m.1 key value c h')
      (follow_left fuel a b key value c h (ap (less key) held.2 ∙ e) held.4.0)
      (left_call c a b h (branch b k' v' l' r') r k v key value
        (upsert_node fuel m.1 key value c h') held sep owner e own
        (below m.1 c h' own.shape key value
          (left_ready c a b h (branch b k' v' l' r') r k v held sep own) own.grows.separate
          (set_left-cow a m.1 m.0 m.1 ∙ own.owns) (omega (arith, d, own.same_depth))))

right_step :
    (fuel a c : ℕ) (h : Heap) (l r : Shape) (k v key value : ℤ)
    → Below fuel
    → Holds h (some a) (branch a k v l r)
    → Separate (branch a k v l r)
    → (h.node a).cow ≡ c
    → depth (branch a k v l r) ≤ suc fuel
    → less key k ≡ false
    → less k key ≡ true
    → Upserted (upsert_node (suc fuel) a key value c h) a c h (branch a k v l r) key value
unfolding depth
right_step fuel a c h l leaf k v key value below held sep owner d e e' =
    recast a c h (branch a k v l leaf) key value (upsert_node (suc fuel) a key value c h)
      (some
        (set_right a (new_node (leaf_node key value c) h).1 (new_node (leaf_node key value c) h).0))
      (turn_right fuel a key value c h (ap (less key) held.2 ∙ e) (ap (λ x. less x key) held.2 ∙ e')
        held.5)
      (right_new c a h l k v key value held sep owner e e')
right_step fuel a c h l (branch b k' v' l' r') k v key value below held sep owner d e e' =
    let child = branch b k' v' l' r' in
    let own = owned c b h child (subst (λ o. Holds h o child) held.5.0 held.5) sep.4 in
    let m = mutable_for b c h in
    let h' = set_right a m.1 m.0 in
    recast a c h (branch a k v l child) key value (upsert_node (suc fuel) a key value c h)
      (upsert_node fuel m.1 key value c h')
      (follow_right fuel a b key value c h (ap (less key) held.2 ∙ e)
        (ap (λ x. less x key) held.2 ∙ e') held.5.0)
      (right_call c a b h l (branch b k' v' l' r') k v key value
        (upsert_node fuel m.1 key value c h') held sep owner e e' own
        (below m.1 c h' own.shape key value
          (right_ready c a b h l (branch b k' v' l' r') k v held sep own) own.grows.separate
          (set_right-cow a m.1 m.0 m.1 ∙ own.owns) (omega (arith, d, own.same_depth))))

at_branch :
    (fuel a c : ℕ) (h : Heap) (l r : Shape) (k v key value : ℤ)
    → Below fuel
    → Holds h (some a) (branch a k v l r)
    → Separate (branch a k v l r)
    → (h.node a).cow ≡ c
    → depth (branch a k v l r) ≤ suc fuel
    → Upserted (upsert_node (suc fuel) a key value c h) a c h (branch a k v l r) key value
unfolding upsert_node
at_branch fuel a c h l r k v key value below held sep owner d = elim (Bool-cases (less key k)) [
  | inl e ↦ left_step fuel a c h l r k v key value below held sep owner d e
  | inr e ↦ elim (Bool-cases (less k key)) [
    | inl e' ↦ right_step fuel a c h l r k v key value below held sep owner d e e'
    | inr e' ↦
        recast a c h (branch a k v l r) key value (upsert_node (suc fuel) a key value c h)
          (some (set_value a value h))
          (turn_here fuel a key value c h (ap (less key) held.2 ∙ e)
            (ap (λ x. less x key) held.2 ∙ e'))
          (here c a h l r k v key value held sep owner e e')
  ]
]

pub upsert_node_lem : (fuel : ℕ) → Below fuel
unfolding depth
upsert_node_lem fuel a c h leaf key value held sep owner d = ground arith
upsert_node_lem zero a c h (branch i k v l r) key value held sep owner d = ground arith
upsert_node_lem (suc fuel) a c h (branch i k v l r) key value held sep owner d =
    let same : i ≡ a = ground (arith, held.0) in
    subst
      (λ x. Upserted (upsert_node (suc fuel) a key value c h) a c h (branch x k v l r) key value)
      (sym same)
      (at_branch fuel a c h l r k v key value (upsert_node_lem fuel)
        (subst (λ x. Holds h (some a) (branch x k v l r)) same held)
        (subst (λ x. Separate (branch x k v l r)) same sep) owner d)
