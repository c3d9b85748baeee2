-- ===== src/CowTree/Children.antt =====
-- A step of upsertNode below a node, which then has the new child.
use go_by_example.Prelude.{ℕ, ◌≤◌, ◌<◌, ◌≡◌, ◌≢◌, ◌∙◌, refl, sym, ap, some, eqb_iff, arith}
use go_by_example.Prelude.Integers.{ℤ}
use go_by_example.CowTree.{Heap, set_node, set_left, set_right}
use go_by_example.CowTree.Shapes.{
  Shape, branch, Each, Each-map, Each-both, Each-swap, Holds, Separate, Holds-made, Holds-branch,
  Holds-frame,
}
use go_by_example.CowTree.Upserts.{Grown}

-- the child `b` of the node, made writable, as `b'` in `h'`
pub record Child (c : ℕ) (h h' : Heap) (b' : ℕ) (s s' : Shape) : Type 1 where
  pub holds : Holds h' (some b') s'
  pub grows : Grown c h h' s s'
  pub keeps_all : (x : ℕ) → x < h.nodes → h'.node x ≡ h.node x

module _ (c a b' : ℕ) (k v : ℤ) (h h' u : Heap) (l r s t : Shape)
    (held : Holds h (some a) (branch a k v l r)) (sep : Separate (branch a k v l r))
    (owner : (h.node a).cow ≡ c) where
  made_l : Each (λ x. x < h.nodes) l
  made_l = Holds-made h (h.node a).left l held.4

  made_r : Each (λ x. x < h.nodes) r
  made_r = Holds-made h (h.node a).right r held.5

  module _ (child : Child c h h' b' l s) (later : Grown c (set_left a b' h') u s t)
      (holds : Holds u (some b') t) where
    left_nodes : (set_left a b' h').nodes ≡ h'.nodes
    unfolding set_left set_node
    left_nodes = refl

    left_old : (x : ℕ) → x < h.nodes → x ≢ a → (set_left a b' h').node x ≡ h.node x
    unfolding set_left set_node
    left_old x lt ne = ground (arith, child.keeps_all x, eqb_iff x a)

    left_root : (set_left a b' h').node a ≡ record (h.node a) { left = some b' }
    unfolding set_left set_node
    left_root = ground (arith, child.keeps_all a held.1, eqb_iff a a)

    left_apart : (x : ℕ) → x < h.nodes → Each (λ y. x ≢ y) l → Each (λ y. x ≢ y) s
    left_apart x lt e = child.grows.grown (λ y. x ≢ y) e (λ y le q. omega arith)

    left_stays : (x : ℕ) → x < h.nodes → x ≢ a → Each (λ y. x ≢ y) l → u.node x ≡ h.node x
    left_stays x lt ne e =
        later.keeps x (omega (arith, left_nodes, child.grows.more)) (left_apart x lt e)
        ∙ left_old x lt ne

    left_more : h.nodes ≤ u.nodes
    left_more = omega (arith, left_nodes, child.grows.more, later.more)

    left_grown : (P : ℕ → Type 0) → Each P l → ((x : ℕ) → h.nodes ≤ x → P x) → Each P t
    left_grown P e f =
        later.grown P (child.grows.grown P e f)
          (λ x le. f x (omega (arith, left_nodes, child.grows.more)))

    pub left_Holds : Holds u (some a) (branch a k v t r)
    left_Holds =
        Holds-branch u a k v t r (record (h.node a) { left = some b' })
          (omega (arith, left_more, held.1))
          (later.keeps a (omega (arith, held.1, left_nodes, child.grows.more))
              (left_apart a held.1 (Each-map (λ x ne q. ne (sym q)) l sep.0))
            ∙ left_root)
          held.2 held.3 holds
          (Holds-frame h u (h.node a).right r left_more
            (Each-both
              (λ x lt (e : (x ≢ a) × Each (λ y. y ≢ x) l).
                left_stays x lt e.0 (Each-map (λ y ne q. ne (sym q)) l e.1))
              r made_r (Each-both (λ x p q. (p, q)) r sep.1 (Each-swap (λ x y. x ≢ y) l r sep.2)))
            held.5)

    pub left_Grown : Grown c h u (branch a k v l r) (branch a k v t r)
    left_Grown = record {
      separate = (
        left_grown (λ x. x ≢ a) sep.0 (λ x le q. omega (arith, held.1)),
        sep.1,
        left_grown (λ x. Each (λ y. x ≢ y) r) sep.2
            (λ x le. Each-map (λ y lt q. omega arith) r made_r),
        later.separate,
        sep.4,
      );
      grown = λ P e f. (e.0, left_grown P e.1 f, e.2);
      keeps = λ x lt e. left_stays x lt e.0 e.1;
      keeps_foreign = λ x lt foreign.
          let ne : x ≢ a = λ q. foreign (ap (λ i. (h.node i).cow) q ∙ owner) in
          let old = left_old x lt ne in
          later.keeps_foreign x (omega (arith, left_nodes, child.grows.more))
            (λ q. foreign (sym (ap (λ n. n.cow) old) ∙ q))
          ∙ old;
      more = left_more;
    }

  module _ (child : Child c h h' b' r s) (later : Grown c (set_right a b' h') u s t)
      (holds : Holds u (some b') t) where
    right_nodes : (set_right a b' h').nodes ≡ h'.nodes
    unfolding set_right set_node
    right_nodes = refl

    right_old : (x : ℕ) → x < h.nodes → x ≢ a → (set_right a b' h').node x ≡ h.node x
    unfolding set_right set_node
    right_old x lt ne = ground (arith, child.keeps_all x, eqb_iff x a)

    right_root : (set_right a b' h').node a ≡ record (h.node a) { right = some b' }
    unfolding set_right set_node
    right_root = ground (arith, child.keeps_all a held.1, eqb_iff a a)

    right_apart : (x : ℕ) → x < h.nodes → Each (λ y. x ≢ y) r → Each (λ y. x ≢ y) s
    right_apart x lt e = child.grows.grown (λ y. x ≢ y) e (λ y le q. omega arith)

    right_stays : (x : ℕ) → x < h.nodes → x ≢ a → Each (λ y. x ≢ y) r → u.node x ≡ h.node x
    right_stays x lt ne e =
        later.keeps x (omega (arith, right_nodes, child.grows.more)) (right_apart x lt e)
        ∙ right_old x lt ne

    right_more : h.nodes ≤ u.nodes
    right_more = omega (arith, right_nodes, child.grows.more, later.more)

    right_grown : (P : ℕ → Type 0) → Each P r → ((x : ℕ) → h.nodes ≤ x → P x) → Each P t
    right_grown P e f =
        later.grown P (child.grows.grown P e f)
          (λ x le. f x (omega (arith, right_nodes, child.grows.more)))

    pub right_Holds : Holds u (some a) (branch a k v l t)
    right_Holds =
        Holds-branch u a k v l t (record (h.node a) { right = some b' })
          (omega (arith, right_more, held.1))
          (later.keeps a (omega (arith, held.1, right_nodes, child.grows.more))
              (right_apart a held.1 (Each-map (λ x ne q. ne (sym q)) r sep.1))
            ∙ right_root)
          held.2 held.3
          (Holds-frame h u (h.node a).left l right_more
            (Each-both (λ x lt (e : (x ≢ a) × Each (λ y. x ≢ y) r). right_stays x lt e.0 e.1) l
              made_l (Each-both (λ x p q. (p, q)) l sep.0 sep.2))
            held.4)
          holds

    pub right_Grown : Grown c h u (branch a k v l r) (branch a k v l t)
    right_Grown = record {
      separate = (
        sep.0,
        right_grown (λ x. x ≢ a) sep.1 (λ x le q. omega (arith, held.1)),
        Each-both (λ x lt e. right_grown (λ y. x ≢ y) e (λ y le q. omega arith)) l made_l sep.2,
        sep.3,
        later.separate,
      );
      grown = λ P e f. (e.0, e.1, right_grown P e.2 f);
      keeps = λ x lt e. right_stays x lt e.0 e.2;
      keeps_foreign = λ x lt foreign.
          let ne : x ≢ a = λ q. foreign (ap (λ i. (h.node i).cow) q ∙ owner) in
          let old = right_old x lt ne in
          later.keeps_foreign x (omega (arith, right_nodes, child.grows.more))
            (λ q. foreign (sym (ap (λ n. n.cow) old) ∙ q))
          ∙ old;
      more = right_more;
    }
