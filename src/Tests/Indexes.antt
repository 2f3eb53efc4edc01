-- ===== src/Tests/Indexes.antt =====
-- The search of an index of a node and two leaves, with numbers for fields and four bytes for an
-- entry.
use Prim.Native.Nat.{compare}
use crusty_db.Prelude.{
  ℕ, zero, suc, ◌+◌, ◌≡◌, refl, ◌==◌, if◌then◌else◌, List, [], ◌∷◌, ◌++◌, Option, none, some,
  length, arith,
}
use crusty_db.Bytes.{Array, copy, to_le_bytes}
use crusty_db.HeapPage.Header.{get_slot_metadata_offset, read_u16, get_u16, get_num_slots}
use crusty_db.HeapPage.Values.{get_value}
use crusty_db.HeapPage.Iter.{next, next_from}
use crusty_db.Ids.{ValueId}
use crusty_db.Order.{sort_by}
use crusty_db.Order.Slices.{compare_slices, same_slices}
use crusty_db.Query.{Outcome, ok, err}
use crusty_db.Index.{
  NodeEntry, meta, internal, leaf, is_leaf_from, internal_from, leaf_from, read_internal_entries,
  read_leaf_entries, rids_of,
}
use crusty_db.Index.Search.{get_root_page_id, read_leaf, search}
use crusty_db.Index.Runs.{Leaf, entries_of, LinkedRight}
use crusty_db.Index.Ordered.{Ascending}
use crusty_db.Index.Tree.{Tree, leaf_page, node_page, no_branches, branch, leaves}
use crusty_db.Index.Descent.{IsStored}
use crusty_db.Index.Finding.{search_lem}
use crusty_db.Tests.Pages.{zeros}
use crusty_db.Tests.Plans.{ℕ-IsOrder, ℕ-Decides}

abbrev number : ℕ → Option ℕ
number n = if n == 0 then none else some n

abbrev pub rid : ℕ → ValueId
rid n = record { container_id = 7; segment_id = none; page_id = some 0; slot_id = some n }

abbrev pub entry : List ℕ → Option (NodeEntry ℕ)
entry (zero ∷ is_leaf ∷ l ∷ r ∷ []) = some (meta (is_leaf == 1) (number l) (number r))
entry (suc zero ∷ k ∷ child ∷ r ∷ []) =
    some (internal (if k == 0 then none else some (k ∷ [])) child)
entry (suc (suc zero) ∷ k ∷ n ∷ r ∷ []) = some (leaf (k ∷ []) (rid n))
entry _ = none

-- The slots of values of four bytes from an offset on.
abbrev slots_from : ℕ → List (List ℕ) → List ℕ
slots_from offset [] = []
slots_from offset (v ∷ vs) = to_le_bytes 2 offset ++ to_le_bytes 2 4 ++ slots_from (offset + 4) vs

abbrev flat : List (List ℕ) → List ℕ
flat [] = []
flat (v ∷ vs) = v ++ flat vs

abbrev page_with : List (List ℕ) → Array
page_with vs =
    copy (copy (copy zeros 2000 (flat vs)) 24 (slots_from 2000 vs)) 16 (to_le_bytes 2 (length vs))

abbrev pages : ℕ → Outcome Array
pages zero = ok (page_with ((3 ∷ 0 ∷ 0 ∷ 0 ∷ []) ∷ []))
pages (suc zero) =
    ok (page_with ((0 ∷ 1 ∷ 0 ∷ 2 ∷ []) ∷ (2 ∷ 5 ∷ 10 ∷ 0 ∷ []) ∷ (2 ∷ 2 ∷ 7 ∷ 0 ∷ []) ∷ []))
pages (suc (suc zero)) =
    ok (page_with ((0 ∷ 1 ∷ 1 ∷ 0 ∷ []) ∷ (2 ∷ 5 ∷ 11 ∷ 0 ∷ []) ∷ (2 ∷ 8 ∷ 9 ∷ 0 ∷ []) ∷ []))
pages (suc (suc (suc zero))) =
    ok (page_with ((0 ∷ 0 ∷ 0 ∷ 0 ∷ []) ∷ (1 ∷ 5 ∷ 2 ∷ 0 ∷ []) ∷ (1 ∷ 0 ∷ 1 ∷ 0 ∷ []) ∷ []))
pages _ = err

abbrev left_leaf : Leaf ℕ
left_leaf = record { id = 1; entries = (2 ∷ [], rid 7) ∷ (5 ∷ [], rid 10) ∷ [] }

abbrev right_leaf : Leaf ℕ
right_leaf = record { id = 2; entries = (5 ∷ [], rid 11) ∷ (8 ∷ [], rid 9) ∷ [] }

abbrev two_leaves : Tree ℕ
two_leaves = node_page 3 (leaf_page left_leaf) (branch (5 ∷ []) (leaf_page right_leaf) no_branches)

two_leaves-root : get_root_page_id compare ◌==◌ entry pages 9 ≡ ok 3
unfolding get_root_page_id get_value get_slot_metadata_offset read_u16 get_u16 get_num_slots
two_leaves-root = refl

two_leaves-IsStored : IsStored compare ◌==◌ entry pages 9 9 two_leaves
unfolding is_leaf_from internal_from read_internal_entries get_value get_slot_metadata_offset
    read_u16 get_u16 get_num_slots next next_from sort_by compare_slices
two_leaves-IsStored = (
  (_, (refl, (refl, refl))),
  ((_, (refl, refl)), ((((refl, (refl, tt))), (refl, (refl, tt))), ((_, (refl, refl)), tt))),
)

two_leaves-linked : LinkedRight compare ◌==◌ entry pages 9 none (leaves two_leaves)
unfolding leaf_from read_leaf_entries read_leaf get_value get_slot_metadata_offset read_u16 get_u16
    get_num_slots next next_from sort_by compare_slices
two_leaves-linked = (refl, (refl, tt))

two_leaves-Ascending : Ascending compare (entries_of (leaves two_leaves))
unfolding compare_slices
two_leaves-Ascending = ((refl, (refl, (refl, tt))), ((refl, (refl, tt)), ((refl, tt), (tt, tt))))

search_example :
    search compare ◌==◌ entry pages 9 9 (5 ∷ [])
    ≡ ok (rids_of compare ◌==◌ entry (5 ∷ []) (entries_of (leaves two_leaves)))
search_example =
    search_lem compare ◌==◌ entry pages 9 ℕ-IsOrder ℕ-Decides (λ a b h. ground (arith, h)) (5 ∷ [])
      9 two_leaves two_leaves-root two_leaves-IsStored two_leaves-linked ((λ h. absurd cc), tt)
      two_leaves-Ascending (omega arith)

five_found : search compare ◌==◌ entry pages 9 9 (5 ∷ []) ≡ ok (rid 10 ∷ rid 11 ∷ [])
unfolding rids_of same_slices
five_found = search_example
