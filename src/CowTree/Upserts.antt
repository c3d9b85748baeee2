-- ===== src/CowTree/Upserts.antt =====
-- What a write under a context may do to the heap, and mutableFor as such a step.
use go_by_example.Prelude.{
  ℕ, ◌≤◌, ◌<◌, ◌≡◌, ◌≢◌, inl, inr, refl, sym, true, false, some, eqb, eqb_iff, arith, Bool-cases,
  subst,
}
use go_by_example.Prelude.Integers.{ℤ}
use go_by_example.CowTree.{Node, Heap, set_node, new_node, mutable_for}
use go_by_example.CowTree.Shapes.{
  Shape, leaf, branch, Each, Each-map, Holds, Separate, find, depth, Holds-made, Holds-branch,
  Holds-frame,
}

-- What a step from `h` to `h'` under the context `c` that turns `s` into `s'` has done.
pub record Grown (c : ℕ) (h h' : Heap) (s s' : Shape) : Type 1 where
  pub separate : Separate s'
  pub grown : (P : ℕ → Type 0) → Each P s → ((x : ℕ) → h.nodes ≤ x → P x) → Each P s'
  -- a node that is not of the tree stays, and so does one of another context
  pub keeps : (x : ℕ) → x < h.nodes → Each (λ y. x ≢ y) s → h'.node x ≡ h.node x
  pub keeps_foreign : (x : ℕ) → x < h.nodes → (h.node x).cow ≢ c → h'.node x ≡ h.node x
  pub more : h.nodes ≤ h'.nodes

-- mutableFor of the root `b`
pub record Owned (c b : ℕ) (h : Heap) (s : Shape) : Type 1 where
  pub shape : Shape
  pub holds : Holds (mutable_for b c h).0 (some (mutable_for b c h).1) shape
  pub grows : Grown c h (mutable_for b c h).0 s shape
  pub owns : ((mutable_for b c h).0.node (mutable_for b c h).1).cow ≡ c
  pub same_find : (k : ℤ) → find k shape ≡ find k s
  pub same_depth : depth shape ≡ depth s
  pub keeps_all : (x : ℕ) → x < h.nodes → (mutable_for b c h).0.node x ≡ h.node x

pub Grown-refl : (c : ℕ) (h : Heap) (s : Shape) → Separate s → Grown c h h s s
Grown-refl c h s sep = record {
  separate = sep;
  grown = λ P e f. e;
  keeps = λ x lt e. refl;
  keeps_foreign = λ x lt e. refl;
  more = omega arith;
}

-- a number that is not in use differs from those of the tree
Each-new : (n : ℕ) (s : Shape) → Each (λ x. x < n) s → Each (λ x. x ≢ n) s
Each-new n s e = Each-map (λ x h. λ q. omega arith) s e

pub copy_old : (h : Heap) (n : Node) (x : ℕ) → x < h.nodes → (new_node n h).0.node x ≡ h.node x
unfolding new_node set_node
copy_old h n x lt = ground arith

pub new_there : (h : Heap) (n : Node) → (new_node n h).0.node h.nodes ≡ n
unfolding new_node set_node
new_there h n = ground (arith, eqb_iff h.nodes h.nodes)

pub new_in_use : (h : Heap) (n : Node) → h.nodes < (new_node n h).0.nodes
unfolding new_node set_node
new_in_use h n = omega arith

pub le_new : (h : Heap) (n : Node) → h.nodes ≤ (new_node n h).0.nodes
unfolding new_node set_node
le_new h n = omega arith

copied :
    (c b : ℕ) (h : Heap)
    → eqb (h.node b).cow c ≡ false
    → mutable_for b c h ≡ ((new_node (record (h.node b) { cow = c }) h).0, h.nodes)
unfolding mutable_for new_node
copied c b h e = rw e refl

Owned-copy :
    (c b : ℕ) (h : Heap) (l r : Shape) (k v : ℤ)
    → Holds h (some b) (branch b k v l r)
    → Separate (branch b k v l r)
    → eqb (h.node b).cow c ≡ false
    → Owned c b h (branch b k v l r)
unfolding mutable_for new_node set_node find depth
Owned-copy c b h l r k v (at, lt, ek, ev, hl, hr) (la, ra, lr, sl, sr) e =
    let made_l = Holds-made h (h.node b).left l hl in
    let made_r = Holds-made h (h.node b).right r hr in
    let h' = (new_node (record (h.node b) { cow = c }) h).0 in
    let old = copy_old h (record (h.node b) { cow = c }) in
    record {
      shape = branch h.nodes k v l r;
      holds =
          subst (λ (o : Heap × ℕ). Holds o.0 (some o.1) (branch h.nodes k v l r))
            (sym (copied c b h e))
            (Holds-branch h' h.nodes k v l r (record (h.node b) { cow = c })
              (new_in_use h (record (h.node b) { cow = c }))
              (new_there h (record (h.node b) { cow = c })) ek ev
              (Holds-frame h h' (h.node b).left l (le_new h (record (h.node b) { cow = c }))
                (Each-map old l made_l) hl)
              (Holds-frame h h' (h.node b).right r (le_new h (record (h.node b) { cow = c }))
                (Each-map old r made_r) hr));
      grows = rw e record {
        separate = (Each-new h.nodes l made_l, Each-new h.nodes r made_r, lr, sl, sr);
        grown = λ P e f. (f h.nodes (omega arith), e.1, e.2);
        keeps = λ x lt e. ground arith;
        keeps_foreign = λ x lt e. ground arith;
        more = omega arith;
      };
      owns = rw e (ground arith);
      same_find = λ k. refl;
      same_depth = refl;
      keeps_all = λ x lt. rw e (ground arith);
    }

Owned-same :
    (c b : ℕ) (h : Heap) (s : Shape)
    → Holds h (some b) s
    → Separate s
    → eqb (h.node b).cow c ≡ true
    → Owned c b h s
unfolding mutable_for
Owned-same c b h s held sep e = record {
  shape = s;
  holds = rw e held;
  grows = rw e (Grown-refl c h s sep);
  owns = rw e (ground (arith, eqb_iff (h.node b).cow c));
  same_find = λ k. refl;
  same_depth = refl;
  keeps_all = λ x lt. rw e refl;
}

pub owned : (c b : ℕ) (h : Heap) (s : Shape) → Holds h (some b) s → Separate s → Owned c b h s
owned c b h leaf held sep = ground arith
owned c b h (branch a k v l r) held sep = elim (Bool-cases (eqb (h.node b).cow c)) [
  | inl e ↦ Owned-same c b h (branch a k v l r) held sep e
  | inr e ↦
      let a_is : a ≡ b = ground (arith, held.0) in
      subst (λ x. Owned c b h (branch x k v l r)) (sym a_is)
        (Owned-copy c b h l r k v (subst (λ x. Holds h (some b) (branch x k v l r)) a_is held)
          (subst (λ x. Separate (branch x k v l r)) a_is sep) e)
]
