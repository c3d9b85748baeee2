-- ===== src/CowTree/Shapes.antt =====
-- A tree in the heap with the numbers of its nodes, and what a heap must hold for it.
use go_by_example.Prelude.{
  ℕ, zero, suc, ◌≤◌, ◌<◌, ◌≡◌, ◌≢◌, ◌∙◌, refl, ap, Option, none, some, if◌then◌else◌, arith, max,
}
use go_by_example.Prelude.Integers.{ℤ, less}
use go_by_example.CowTree.{Node, Heap, get_from}

pub data Shape : Type 0 where
  leaf : Shape
  branch : ℕ → ℤ → ℤ → Shape → Shape → Shape

abbrev pub Each : (ℕ → Type 0) → Shape → Type 0
Each P leaf = Unit
Each P (branch a k v l r) = P a × Each P l × Each P r

pub Each-map : {P Q : ℕ → Type 0} → ((x : ℕ) → P x → Q x) → (s : Shape) → Each P s → Each Q s
Each-map f leaf e = tt
Each-map f (branch a k v l r) (p, el, er) = (f a p, Each-map f l el, Each-map f r er)

pub Each-both :
    {P Q R : ℕ → Type 0}
    → ((x : ℕ) → P x → Q x → R x)
    → (s : Shape) → Each P s
    → Each Q s
    → Each R s
Each-both f leaf e e' = tt
Each-both f (branch a k v l r) (p, el, er) (q, el', er') =
    (f a p q, Each-both f l el el', Each-both f r er er')

Each-tt : (s : Shape) → Each (λ _. Unit) s
Each-tt leaf = tt
Each-tt (branch a k v l r) = (tt, Each-tt l, Each-tt r)

pub Each-swap :
    (R : ℕ → ℕ → Type 0) (s t : Shape)
    → Each (λ x. Each (λ y. R x y) t) s
    → Each (λ y. Each (λ x. R x y) s) t
Each-swap R leaf t e = Each-tt t
Each-swap R (branch a k v l r) t (e, el, er) =
    Each-both (λ y p (q : Each (λ x. R x y) l × Each (λ x. R x y) r). (p, q.0, q.1)) t e
      (Each-both (λ y p q. (p, q)) t (Each-swap R l t el) (Each-swap R r t er))

-- the heap holds the tree, from the pointer on
abbrev pub Holds : Heap → Option ℕ → Shape → Type 0
Holds h p leaf = p ≡ none
Holds h p (branch a k v l r) =
    (p ≡ some a)
    × (a < h.nodes)
    × ((h.node a).key ≡ k)
    × ((h.node a).value ≡ v)
    × Holds h (h.node a).left l
    × Holds h (h.node a).right r

-- no node of the tree has two parents
abbrev pub Separate : Shape → Type 0
Separate leaf = Unit
Separate (branch a k v l r) =
    Each (λ x. x ≢ a) l
    × Each (λ x. x ≢ a) r
    × Each (λ x. Each (λ y. x ≢ y) r) l
    × Separate l
    × Separate r

unfoldable pub find : ℤ → Shape → Option ℤ
find key leaf = none
find key (branch a k v l r) =
    let in_left = find key l in
    let in_right = find key r in
    if less key k then in_left else if less k key then in_right else some v

unfoldable pub depth : Shape → ℕ
depth leaf = 0
depth (branch a k v l r) = suc (max (depth l) (depth r))

pub Holds-made : (h : Heap) (p : Option ℕ) (s : Shape) → Holds h p s → Each (λ x. x < h.nodes) s
Holds-made h p leaf e = tt
Holds-made h p (branch a k v l r) (e, lt, key, value, hl, hr) =
    (lt, Holds-made h (h.node a).left l hl, Holds-made h (h.node a).right r hr)

pub Holds-branch :
    (h : Heap) (a : ℕ) (k v : ℤ) (l r : Shape) (n : Node)
    → a < h.nodes
    → h.node a ≡ n
    → n.key ≡ k
    → n.value ≡ v
    → Holds h n.left l
    → Holds h n.right r
    → Holds h (some a) (branch a k v l r)
Holds-branch h a k v l r n lt e ek ev hl hr = rw e (refl, lt, ek, ev, hl, hr)

-- A heap with the same nodes at these numbers holds the same tree.
pub Holds-frame :
    (h h' : Heap) (p : Option ℕ) (s : Shape)
    → h.nodes ≤ h'.nodes
    → Each (λ x. h'.node x ≡ h.node x) s
    → Holds h p s
    → Holds h' p s
Holds-frame h h' p leaf le e held = held
Holds-frame h h' p (branch a k v l r) le (e, el, er) (at, lt, key, value, hl, hr) = (
  at,
  omega arith,
  ap (λ n. n.key) e ∙ key,
  ap (λ n. n.value) e ∙ value,
  Holds-frame h h' (h'.node a).left l le el (rw e hl),
  Holds-frame h h' (h'.node a).right r le er (rw e hr),
)

-- Get finds what the tree has, with fuel for its depth.
pub get_from_lem :
    (fuel : ℕ) (key : ℤ) (p : Option ℕ) (h : Heap) (s : Shape)
    → Holds h p s
    → depth s ≤ fuel
    → get_from fuel key p h ≡ some (find key s)
unfolding get_from find depth
get_from_lem fuel key p h leaf e d = rw e refl
get_from_lem zero key p h (branch a k v l r) held d = ground arith
get_from_lem (suc fuel) key p h (branch a k v l r) (e, lt, ek, ev, hl, hr) d =
    let left = get_from_lem fuel key (h.node a).left h l hl (omega arith) in
    let right = get_from_lem fuel key (h.node a).right h r hr (omega arith) in
    rw (e, ← ek, ← ev) (ground (arith, left, right))
