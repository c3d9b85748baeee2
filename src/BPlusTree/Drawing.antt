-- ===== src/BPlusTree/Drawing.antt =====
-- generateDot on the leaves of buildLeaves.
use go_by_example.Prelude.{
  ℕ, ◌+◌, ◌≤◌, ◌≡◌, refl, ap, Bool, some, List, [], ◌∷◌, length, arith, ◌∙◌, suc, ◌<◌,
}
use go_by_example.Prelude.Texts.{Text}
use go_by_example.Prelude.Integers.{ℤ}
use go_by_example.BPlusTree.{
  Kv, page_size_of, build_leaves, decimal, root_fields, add_field, close_graph, generate_dot,
}
use go_by_example.BPlusTree.Leaves.{Filled, page_size_of-pos, build_leaves_returns}

root_fields-Filled :
    (size : ℕ) (leaves : List (List Kv))
    → 0 < size
    → Filled size leaves
    → (found : List Text) × (root_fields leaves ≡ some found) × (length found ≡ length leaves)
unfolding root_fields
root_fields-Filled size [] k h = ([], refl, refl)
root_fields-Filled size ([] ∷ []) k h = absurd (omega arith)
root_fields-Filled size ([] ∷ m ∷ leaves) k h = absurd (omega arith)
root_fields-Filled size ((kv ∷ l) ∷ []) k h = (decimal kv.rev ∷ [], refl, refl)
root_fields-Filled size ((kv ∷ l) ∷ m ∷ leaves) k h =
    let (found, e, n) = root_fields-Filled size (m ∷ leaves) k h.1 in
    (decimal kv.rev ∷ found, ap (add_field (decimal kv.rev)) e, ap (λ k. suc k) n)

close_graph-some :
    (show_value : Bool) (leaves : List (List Kv)) (found : List Text)
    → (text : Text) × (close_graph show_value leaves (some found) ≡ some text)
close_graph-some show_value leaves found = (_, refl)

-- Where the number of rows and the page size add up to 2 ^ 63 at most, rows are drawn without a
-- panic: buildLeaves returns leaves and generateDot a text, and the root has a field for every leaf.
pub draws :
    (rows : List Kv) (page_size : ℤ) (show_value : Bool)
    → length rows + page_size_of page_size ≤ 9223372036854775808
    → (leaves : List (List Kv)) × (text : Text) × (found : List Text) × (build_leaves rows page_size
        ≡ some leaves)
      × (generate_dot leaves show_value ≡ some text)
      × (root_fields leaves ≡ some found)
      × (length found ≡ length leaves)
unfolding generate_dot
draws rows page_size show_value small =
    let (leaves, built, whole, filled) = build_leaves_returns rows page_size small in
    let (found, same, n) =
      root_fields-Filled (page_size_of page_size) leaves (page_size_of-pos page_size) filled in
    let (text, drawn) = close_graph-some show_value leaves found in
    (leaves, text, found, built, ap (close_graph show_value leaves) same ∙ drawn, same, n)
