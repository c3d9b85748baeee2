-- ===== src/CowTree/Clones.antt =====
-- Proofs about Clone and the writes after it.
use go_by_example.Prelude.{ℕ, ◌+◌, ◌≤◌, ◌<◌, ◌≡◌, ◌∙◌, refl, sym, ap, some, arith}
use go_by_example.Prelude.Integers.{ℤ}
use go_by_example.CowTree.{Heap, Tree, new_context, upsert, get, clone}
use go_by_example.CowTree.Shapes.{
  Shape, Each, Each-map, depth, Holds-made, Holds-frame, get_from_lem,
}
use go_by_example.CowTree.Sharing.{Has, Foreign, upsert_isolated}

-- the contexts of the tree's nodes were made
abbrev pub Made : Heap → Shape → Type 0
Made h = Each (λ x. (h.node x).cow < h.contexts)

clone_nodes :
    (t : Tree) (h : Heap)
    → (h.nodes ≤ (clone t h).0.nodes)
      × ((x : ℕ) → (clone t h).0.node x ≡ h.node x)
      × ((clone t h).1.root ≡ t.root)
      × ((clone t h).2.root ≡ t.root)
      × ((clone t h).1.cow ≡ h.contexts)
      × ((clone t h).2.cow ≡ h.contexts + 1)
unfolding clone new_context
clone_nodes t h = (omega arith, λ x. refl, refl, refl, refl, refl)

clone-Has :
    (t : Tree) (h : Heap) (s : Shape)
    → Has h t s
    → Has (clone t h).0 (clone t h).1 s × Has (clone t h).0 (clone t h).2 s
clone-Has t h s has =
    let c = clone t h in
    let it = clone_nodes t h in
    let held =
      Holds-frame h c.0 t.root s it.0 (Each-map (λ x lt. it.1 x) s (Holds-made h t.root s has.0))
        has.0 in
    ((rw it.2 held, has.1), (rw it.3 held, has.1))

-- the nodes of the tree are of neither of the new contexts
clone-Foreign :
    (t : Tree) (h : Heap) (s : Shape)
    → Made h s
    → Foreign (clone t h).0 (clone t h).1.cow s × Foreign (clone t h).0 (clone t h).2.cow s
clone-Foreign t h s made =
    let it = clone_nodes t h in
    (
      Each-map (λ x lt q. omega (arith, ap (λ n. n.cow) (it.1 x), q, it.4)) s made,
      Each-map (λ x lt q. omega (arith, ap (λ n. n.cow) (it.1 x), q, it.5)) s made,
    )

clone-get :
    (t w : Tree) (h : Heap) (s : Shape) (n : ℕ) (k : ℤ)
    → Has h t s
    → Has (clone t h).0 w s
    → depth s ≤ n
    → get n k w (clone t h).0 ≡ get n k t h
unfolding get
clone-get t w h s n k has has' le =
    get_from_lem n k w.root (clone t h).0 s has'.0 le ∙ sym (get_from_lem n k t.root h s has.0 le)

-- After Clone of a tree that the heap holds and whose nodes have contexts that were made, Upsert of
-- either of the two trees, with fuel for the depth, ends, and Get of the other one, with fuel for
-- the depth, finds what the tree had before Clone.
pub clone_isolates :
    (fuel : ℕ) (key value : ℤ) (t : Tree) (h : Heap) (s : Shape)
    → Has h t s
    → Made h s
    → depth s ≤ fuel
    → ((u : Heap) × (t' : Tree) × (upsert fuel key value (clone t h).1 (clone t h).0 ≡ some (u, t'))
        × ((n : ℕ) (k : ℤ) → depth s ≤ n → get n k (clone t h).2 u ≡ get n k t h))
      × ((u : Heap) × (t' : Tree) × (upsert fuel key value (clone t h).2 (clone t h).0
            ≡ some (u, t'))
          × ((n : ℕ) (k : ℤ) → depth s ≤ n → get n k (clone t h).1 u ≡ get n k t h))
clone_isolates fuel key value t h s has made d =
    let c = clone t h in
    let has' = clone-Has t h s has in
    let foreign = clone-Foreign t h s made in
    let first = upsert_isolated fuel key value c.1 c.2 c.0 s s has'.0 d has'.1 foreign.0 in
    let second = upsert_isolated fuel key value c.2 c.1 c.0 s s has'.1 d has'.0 foreign.1 in
    (
      (first.0, first.1, first.2, λ n k le. first.5 n k le ∙ clone-get t c.2 h s n k has has'.1 le),
      (
        second.0,
        second.1,
        second.2,
        λ n k le. second.5 n k le ∙ clone-get t c.1 h s n k has has'.0 le,
      ),
    )
