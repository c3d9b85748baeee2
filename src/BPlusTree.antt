-- ===== src/BPlusTree.antt =====
-- etcd/b+ tree/etcd_bptree_viz.go: the leaves of a simulated B+ tree over the rows of a dump, and the
-- Graphviz text that draws it. A text is its code points. A revision here is what `\d+` matched, so
-- it is not negative, and it fits an int64.
pub mod Leaves
pub mod Order
pub mod Drawing
mod Tests
use go_by_example.Prelude.{
  ℕ, zero, suc, ◌+◌, ◌-◌, ◌*◌, ◌/◌, ◌%◌, ◌^◌, Bool, true, false, not, ◌&&◌, ◌||◌, Option, none,
  some, List, [], ◌∷◌, ◌++◌, if◌then◌else◌, ltb, leb, eqb, length, take, drop,
}
use go_by_example.Prelude.Integers.{ℤ, pos, negsuc}
use go_by_example.Prelude.Texts.{Text, codes, digits, join, text_less}
use go_by_example.MessageCodec.{value_from}

abbrev pub default_page_size : ℕ
default_page_size = 4

pub record Kv : Type 0 where
  pub rev : ℕ
  pub key : Text
  pub val : Text

-- an int64 is a number below 2 ^ 64 in two's complement
unfoldable pub decode_main_revision : List ℕ → ℕ
unfolding value_from
decode_main_revision raw = if ltb (length raw) 8 then 0 else value_from 0 (take 8 raw) % 2 ^ 64

-- the order that parseDump sorts the rows by
unfoldable pub row_less : Kv → Kv → Bool
unfolding text_less
row_less a b = if eqb a.rev b.rev then text_less a.key b.key else ltb a.rev b.rev

unfoldable pub insert_row : Kv → List Kv → List Kv
insert_row x [] = x ∷ []
insert_row x (y ∷ ys) = if row_less y x then y ∷ insert_row x ys else x ∷ y ∷ ys

unfoldable pub sort_rows : List Kv → List Kv
unfolding insert_row
sort_rows [] = []
sort_rows (x ∷ xs) = insert_row x (sort_rows xs)

unfoldable pub page_size_of : ℤ → ℕ
page_size_of (negsuc n) = default_page_size
page_size_of (pos zero) = default_page_size
page_size_of (pos (suc n)) = suc n

-- The loop; `fuel` bounds its rounds, and `rest` is `data[i:]`.
unfoldable pub cut_leaves : ℕ → ℕ → List Kv → List (List Kv)
cut_leaves zero size rest = []
cut_leaves (suc fuel) size [] = []
cut_leaves (suc fuel) size (r ∷ rest) =
    take size (r ∷ rest) ∷ cut_leaves fuel size (drop size (r ∷ rest))

-- `make` panics where the capacity is negative, by an int that overflows.
unfoldable pub capacity_is_negative : ℕ → ℕ → Bool
capacity_is_negative n size = let sum = n + size - 1 in leb (2 ^ 63) sum && leb size (2 ^ 64 - sum)

unfoldable pub build_leaves : List Kv → ℤ → Option (List (List Kv))
unfolding page_size_of cut_leaves capacity_is_negative
build_leaves rows page_size =
    if capacity_is_negative (length rows) (page_size_of page_size)
    then none
    else some (cut_leaves (length rows) (page_size_of page_size) rows)

abbrev is_special : ℕ → Bool
is_special c = eqb c b'{' || eqb c b'}' || eqb c b'|' || eqb c b'<' || eqb c b'>' || eqb c 34

-- strings.NewReplacer: two backslashes become four, the others get two in front
unfoldable pub escape_record_field : Text → Text
escape_record_field [] = []
escape_record_field (c ∷ []) = if is_special c then 92 ∷ 92 ∷ c ∷ [] else c ∷ []
escape_record_field (c ∷ d ∷ s) =
    let behind = escape_record_field s in
    let after = escape_record_field (d ∷ s) in
    if eqb c 92 && eqb d 92
    then 92 ∷ 92 ∷ 92 ∷ 92 ∷ behind
    else if is_special c
    then 92 ∷ 92 ∷ c ∷ after
    else c ∷ after

-- "%d" of a revision or an index
unfoldable pub decimal : ℕ → Text
unfolding digits
decimal n = digits 19 n

unfoldable pub entry : Bool → Kv → Text
unfolding escape_record_field decimal
entry show_value kv =
    let named = decimal kv.rev ++ (58 ∷ escape_record_field kv.key) in
    if show_value then named ++ (61 ∷ escape_record_field kv.val) else named

unfoldable pub fields : Bool → List Kv → List Text
unfolding entry
fields show_value [] = []
fields show_value (kv ∷ leaf) = entry show_value kv ∷ fields show_value leaf

unfoldable pub leaf_lines : Bool → ℕ → List (List Kv) → Text
unfolding fields join
leaf_lines show_value i [] = []
leaf_lines show_value i (leaf ∷ leaves) =
    codes "leaf"
    ++ (decimal i
        ++ (codes " [label=\""
            ++ (join (fields show_value leaf) (codes "|")
                ++ (codes "\", fillcolor=\"#f7fbff\"];\n"
                    ++ leaf_lines show_value (i + 1) leaves))))

-- the rounds from `i` on
unfoldable pub next_lines : ℕ → ℕ → Text
next_lines i zero = []
next_lines i (suc rounds) =
    codes "leaf"
    ++ (decimal i
        ++ (codes " -> leaf"
            ++ (decimal (i + 1) ++ (codes " [label=\"next\"];\n" ++ next_lines (i + 1) rounds))))

abbrev pub add_field : Text → Option (List Text) → Option (List Text)
add_field f none = none
add_field f (some found) = some (f ∷ found)

-- `leaf[0].Rev` panics on an empty leaf
unfoldable pub root_fields : List (List Kv) → Option (List Text)
root_fields [] = some []
root_fields ([] ∷ leaves) = none
root_fields ((kv ∷ leaf) ∷ leaves) = add_field (decimal kv.rev) (root_fields leaves)

unfoldable pub root_edges : ℕ → ℕ → Text
root_edges i zero = []
root_edges i (suc rounds) =
    codes "root -> leaf" ++ (decimal i ++ (codes ";\n" ++ root_edges (i + 1) rounds))

unfoldable pub root_lines : ℕ → List Text → Text
unfolding root_edges
root_lines n [] = []
root_lines n (f ∷ fs) =
    codes "root [label=\""
    ++ (join (f ∷ fs) (codes "|") ++ (codes "\", fillcolor=\"#d7e6ff\"];\n" ++ root_edges 0 n))

abbrev pub preamble : Text
preamble =
    codes "digraph BPlusTree {\n"
    ++ (codes "rankdir=TB;\n"
        ++ (codes "node [shape=record, style=filled, fillcolor=\"#e9f2ff\", color=\"#4d79ff\"];\n"
            ++ codes "edge [color=\"#5c5c5c\"];\n"))

abbrev pub close_graph : Bool → List (List Kv) → Option (List Text) → Option Text
close_graph show_value leaves none = none
close_graph show_value leaves (some found) = some (
    preamble
    ++ (leaf_lines show_value 0 leaves
        ++ (next_lines 0 (length leaves - 1) ++ (root_lines (length leaves) found ++ codes "}\n"))))

unfoldable pub generate_dot : List (List Kv) → Bool → Option Text
unfolding root_fields
generate_dot leaves show_value = close_graph show_value leaves (root_fields leaves)
