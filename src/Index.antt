-- ===== src/Index.antt =====
-- src/index/src/tree.rs: the B+ tree over heap pages, as far as `search` reads it. Outcome is that
-- of Query: a result, an error that the caller passes on, or a panic.
pub mod Search
pub mod Runs
pub mod Ordered
pub mod Lookup
pub mod Tree
pub mod Descent
pub mod Finding
pub mod Delete
pub mod Erasing
pub mod Deletion
pub mod Removing
use crusty_db.Prelude.{
  ℕ, zero, suc, ◌+◌, Bool, true, false, List, [], ◌∷◌, ◌++◌, Option, none, some, if◌then◌else◌,
}
use Prim.Native.Nat.{Ordering}
use crusty_db.Bytes.{Array}
use crusty_db.Ids.{ValueId}
use crusty_db.Order.{is_le, and_then, sort_by}
use crusty_db.Order.Lists.{compare_list}
use crusty_db.Order.Slices.{compare_slices, same_slices}
use crusty_db.HeapPage.Iter.{next}
use crusty_db.Query.{Outcome, ok, err, panicked, ◌>>=◌, unwrap}

-- A key is a list of fields.
pub data NodeEntry (T : Type 0) : Type 0 where
  meta : Bool → Option ℕ → Option ℕ → NodeEntry T
  internal : Option (List T) → ℕ → NodeEntry T
  leaf : List T → ValueId → NodeEntry T

-- A leaf's siblings and its entries.
pub record LeafEntries (T : Type 0) : Type 0 where
  pub left_sibling : Option ℕ
  pub right_sibling : Option ℕ
  pub entries : List (List T × ValueId)

abbrev pub number_or_none : Option ℕ → List ℕ
number_or_none none = 0 ∷ []
number_or_none (some n) = 1 ∷ n ∷ []

-- The numbers that `rid_key` compares, `None` before `Some`.
unfoldable pub rid_key : ValueId → List ℕ
rid_key v = v.container_id ∷ (number_or_none v.page_id ++ number_or_none v.slot_id)

-- `last`.
abbrev pub last : {A : Type 0} → List A → Option A
last [] = none
last (x ∷ []) = some x
last (x ∷ y ∷ ys) = last (y ∷ ys)

-- `decode` is the decoder of the node entries, which the serializer's library gives; an error is
-- `none`.
module _ {T : Type 0} (cmp : T → T → Ordering) (same : T → T → Bool)
    (decode : List ℕ → Option (NodeEntry T)) where
  unfoldable pub decoded : List ℕ → Outcome (NodeEntry T)
  decoded bytes = elim (decode bytes) [ none ↦ err | some e ↦ ok e ]

  -- The loops over a page's values, on fuel, of which each round takes one; running out of it
  -- counts as a panic. `current` is the iterator's slot.
  unfoldable pub is_leaf_from : ℕ → Array → ℕ → Outcome Bool
  unfolding decoded
  is_leaf_from zero page current = panicked
  is_leaf_from (suc fuel) page current = do
    (item, current') ← unwrap (next page current)
    elim item [
      | none ↦ err
      | some (bytes, slot) ↦ do
        e ← decoded bytes
        elim e [
          | meta is_leaf l r ↦ ok is_leaf
          | internal k c ↦ is_leaf_from fuel page current'
          | leaf k rid ↦ is_leaf_from fuel page current'
        ]
    ]

  unfoldable pub internal_from : ℕ → Array → ℕ → Outcome (List (Option (List T) × ℕ))
  unfolding decoded
  internal_from zero page current = panicked
  internal_from (suc fuel) page current = do
    (item, current') ← unwrap (next page current)
    elim item [
      | none ↦ ok []
      | some (bytes, slot) ↦ do
        e ← decoded bytes
        elim e [
          | meta is_leaf l r ↦ internal_from fuel page current'
          | internal k c ↦ do rest ← internal_from fuel page current'; ok ((k, c) ∷ rest)
          | leaf k rid ↦ internal_from fuel page current'
        ]
    ]

  unfoldable pub leaf_from : ℕ → Array → ℕ → LeafEntries T → Outcome (LeafEntries T)
  unfolding decoded
  leaf_from zero page current r = panicked
  leaf_from (suc fuel) page current r = do
    (item, current') ← unwrap (next page current)
    elim item [
      | none ↦ ok r
      | some (bytes, slot) ↦ do
        e ← decoded bytes
        elim e [
          | meta is_leaf ls rs ↦
              leaf_from fuel page current' (record r { left_sibling = ls; right_sibling = rs })
          | internal k c ↦ err
          | leaf k rid ↦
              leaf_from fuel page current' (record r { entries = r.entries ++ ((k, rid) ∷ []) })
        ]
    ]

  -- Keys are ordered as lists; in an internal node no key comes before any.
  unfoldable pub compare_separators : Option (List T) × ℕ → Option (List T) × ℕ → Ordering
  compare_separators (none, c) (none, d) = Ordering.eq
  compare_separators (none, c) (some l, d) = Ordering.lt
  compare_separators (some k, c) (none, d) = Ordering.gt
  compare_separators (some k, c) (some l, d) = compare_slices cmp k l

  unfoldable pub compare_entries : List T × ValueId → List T × ValueId → Ordering
  unfolding rid_key
  compare_entries (k, rid) (l, rid') =
      and_then (compare_slices cmp k l) (compare_list (rid_key rid) (rid_key rid'))

  unfoldable pub read_internal_entries : ℕ → Array → Outcome (List (Option (List T) × ℕ))
  unfolding internal_from compare_separators
  read_internal_entries fuel page = do
    entries ← internal_from fuel page 0
    ok (sort_by compare_separators entries)

  unfoldable pub read_leaf_entries : ℕ → Array → Outcome (LeafEntries T)
  unfolding leaf_from compare_entries
  read_leaf_entries fuel page = do
    r ← leaf_from fuel page 0 (record { left_sibling = none; right_sibling = none; entries = [] })
    ok (record r { entries = sort_by compare_entries r.entries })

  -- The child of the last separator that is at most the key; an empty node panics.
  unfoldable pub child_from : List T → ℕ → List (Option (List T) × ℕ) → ℕ
  child_from key result [] = result
  child_from key result ((none, child) ∷ es) = child_from key child es
  child_from key result ((some k, child) ∷ es) =
      let rest = child_from key child es in
      if is_le (compare_slices cmp k key) then rest else result

  unfoldable pub find_child : List (Option (List T) × ℕ) → List T → Outcome ℕ
  unfolding child_from
  find_child [] key = panicked
  find_child ((k, child) ∷ es) key = ok (child_from key child ((k, child) ∷ es))

  -- `prev_entries.last().map(..).unwrap_or(false)`.
  unfoldable pub ends_with : List T → List (List T × ValueId) → Bool
  ends_with key entries = elim (last entries) [
    | none ↦ false
    | some (k, rid) ↦ same_slices same k key
  ]

  -- The ids of the entries with a key, in order.
  unfoldable pub rids_of : List T → List (List T × ValueId) → List ValueId
  rids_of key [] = []
  rids_of key ((k, rid) ∷ es) =
      if same_slices same k key then rid ∷ rids_of key es else rids_of key es
