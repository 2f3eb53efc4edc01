-- ===== src/Index/Search.antt =====
-- tree.rs: `search`. `fetch` gives the content of a page of the index, as the buffer pool serves it;
-- a search changes none.
use Prim.Native.Nat.{Ordering}
use crusty_db.Prelude.{
  ℕ, zero, suc, ◌==◌, Bool, true, false, List, [], ◌++◌, Option, none, some, if◌then◌else◌, length,
}
use crusty_db.Bytes.{Array, from_le_bytes}
use crusty_db.Ids.{ValueId}
use crusty_db.HeapPage.Values.{get_value}
use crusty_db.Query.{Outcome, ok, err, panicked, ◌>>=◌, unwrap}
use crusty_db.Index.{
  NodeEntry, LeafEntries, is_leaf_from, read_internal_entries, read_leaf_entries, find_child,
  ends_with, rids_of,
}

-- `slots` is more than the slots of a page.
module _ {T : Type 0} (cmp : T → T → Ordering) (same : T → T → Bool)
    (decode : List ℕ → Option (NodeEntry T)) (fetch : ℕ → Outcome Array) (slots : ℕ) where
  unfoldable pub read_leaf : ℕ → Outcome (LeafEntries T)
  read_leaf page_id = do page ← fetch page_id; read_leaf_entries cmp same decode slots page

  unfoldable pub get_root_page_id : Outcome ℕ
  get_root_page_id = do
    page ← fetch 0
    value ← unwrap (get_value page 0)
    elim value [
      | none ↦ err
      | some bytes ↦ if length bytes == 4 then ok (from_le_bytes bytes) else err
    ]

  -- The loops run on fuel: the height of the tree, or the leaves of its chain.
  unfoldable pub find_leaf : ℕ → ℕ → List T → Outcome ℕ
  find_leaf zero page_id key = panicked
  find_leaf (suc fuel) page_id key = do
    page ← fetch page_id
    is_leaf ← is_leaf_from cmp same decode slots page 0
    elim is_leaf [
      | true ↦ ok page_id
      | false ↦ do
        entries ← read_internal_entries cmp same decode slots page
        child ← find_child cmp same decode entries key
        find_leaf fuel child key
    ]

  unfoldable pub leftmost_run_leaf : ℕ → ℕ → List T → Outcome ℕ
  unfolding read_leaf
  leftmost_run_leaf zero current key = panicked
  leftmost_run_leaf (suc fuel) current key = do
    r ← read_leaf current
    elim r.left_sibling [
      | none ↦ ok current
      | some prev_id ↦ do
        prev ← read_leaf prev_id
        elim (ends_with cmp same decode key prev.entries) [
          | true ↦ leftmost_run_leaf fuel prev_id key
          | false ↦ ok current
        ]
    ]

  -- The loop of `search` to the right.
  unfoldable pub collect_run : ℕ → Option ℕ → List T → Outcome (List ValueId)
  unfolding read_leaf
  collect_run zero current key = panicked
  collect_run (suc fuel) none key = ok []
  collect_run (suc fuel) (some page_id) key = do
    r ← read_leaf page_id
    more ←
        collect_run fuel
          (elim (ends_with cmp same decode key r.entries) [ true ↦ r.right_sibling | false ↦ none ])
          key
    ok (rids_of cmp same decode key r.entries ++ more)

  -- What `search` does from the leaf that it lands on.
  unfoldable pub search_from : ℕ → ℕ → List T → Outcome (List ValueId)
  unfolding leftmost_run_leaf collect_run
  search_from fuel landed key = do
    first ← leftmost_run_leaf fuel landed key
    collect_run fuel (some first) key

  unfoldable pub search : ℕ → List T → Outcome (List ValueId)
  unfolding get_root_page_id find_leaf search_from
  search fuel key = do
    root_id ← get_root_page_id
    landed ← find_leaf fuel root_id key
    search_from fuel landed key
