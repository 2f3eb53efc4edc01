-- ===== src/Index/Delete.antt =====
-- tree.rs: `delete`. As `search`, on the pages that `fetch` gives.
use crusty_db.Prelude.{ℕ, zero, suc, Bool, true, false, ◌&&◌, List, Option, none, some}
use Prim.Native.Nat.{Ordering}
use crusty_db.Bytes.{Array}
use crusty_db.Ids.{ValueId}
use crusty_db.Order.Slices.{same_slices}
use crusty_db.MemStore.{same_id}
use crusty_db.HeapPage.Iter.{next}
use crusty_db.HeapPage.Values.{delete_value}
use crusty_db.Query.{Outcome, ok, panicked, ◌>>=◌, unwrap}
use crusty_db.Index.{NodeEntry, meta, internal, leaf, decoded, read_leaf_entries, ends_with}
use crusty_db.Index.Search.{get_root_page_id, find_leaf, leftmost_run_leaf}

module _ {T : Type 0} (cmp : T → T → Ordering) (same : T → T → Bool)
    (decode : List ℕ → Option (NodeEntry T)) (fetch : ℕ → Outcome Array) (slots : ℕ) (key : List T)
    (rid : ValueId) where
  -- The loop over a page's values, on fuel, to the slot of the entry.
  unfoldable pub find_slot : ℕ → Array → ℕ → Outcome (Option ℕ)
  unfolding decoded
  find_slot zero page current = panicked
  find_slot (suc fuel) page current = do
    (item, current') ← unwrap (next page current)
    elim item [
      | none ↦ ok none
      | some (bytes, slot) ↦ do
        e ← decoded cmp same decode bytes
        elim e [
          | meta is_leaf l r ↦ find_slot fuel page current'
          | internal k c ↦ find_slot fuel page current'
          | leaf k r ↦ elim (same_slices same k key && same_id r rid) [
            | true ↦ ok (some slot)
            | false ↦ find_slot fuel page current'
          ]
        ]
    ]

  -- The loop along the leaves: the page and the slot where `delete_value` is called, if any.
  unfoldable pub delete_from : ℕ → ℕ → Outcome (Option (ℕ × ℕ))
  unfolding find_slot
  delete_from zero current = panicked
  delete_from (suc fuel) current = do
    page ← fetch current
    found ← find_slot slots page 0
    r ← read_leaf_entries cmp same decode slots page
    elim found [
      | some slot ↦ ok (some (current, slot))
      | none ↦ elim (ends_with cmp same decode key r.entries) [
        | false ↦ ok none
        | true ↦ elim r.right_sibling [ none ↦ ok none | some next_id ↦ delete_from fuel next_id ]
      ]
    ]

  -- The write: the page that changes, and its new content.
  unfoldable pub delete_at : Option (ℕ × ℕ) → Outcome (Option (ℕ × Array))
  delete_at none = ok none
  delete_at (some (page_id, slot)) = do
    page ← fetch page_id
    result ← unwrap (delete_value page slot)
    elim result [ none ↦ ok (some (page_id, page)) | some page' ↦ ok (some (page_id, page')) ]

  unfoldable pub delete : ℕ → Outcome (Option (ℕ × Array))
  unfolding get_root_page_id find_leaf delete_from delete_at
  delete fuel = do
    root_id ← get_root_page_id cmp same decode fetch slots
    landed ← find_leaf cmp same decode fetch slots fuel root_id key
    first ← leftmost_run_leaf cmp same decode fetch slots fuel landed key
    found ← delete_from fuel first
    delete_at found
