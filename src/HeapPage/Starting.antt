-- ===== src/HeapPage/Starting.antt =====
-- heap_page.rs, `init_heap_page`: a fresh page is well-formed and empty.
use crusty_db.Prelude.{ℕ, ◌≡◌, refl, none, ltb-false, arith}
use crusty_db.Bytes.{Array}
use crusty_db.HeapPage.Header.{
  get_num_slots, get_deleted_bytes, get_deleted_slot_count, init_heap_page,
}
use crusty_db.HeapPage.Layout.{layout, layout-set_free_space_ptr}
use crusty_db.HeapPage.Wf.{IsWf}
use crusty_db.HeapPage.Reading.{contents, contents_dead}

module _ (p : Array) (no_slots : get_num_slots p ≡ 0) where
  no_values : (i : ℕ) → (layout p).len i ≡ 0
  unfolding layout
  no_values i = rw (no_slots, ltb-false i 0 (omega arith)) refl

  empty-IsWf :
      get_deleted_bytes p ≡ 0
      → get_deleted_slot_count p ≡ 0
      → IsWf (record (layout p) { fsp = 4096 })
  unfolding layout
  empty-IsWf b d = record {
    packed = record {
      header = omega (arith, no_slots);
      top = omega arith;
      beyond = λ i h. no_values i;
      inside = λ i h. absurd (omega (arith, no_values i, h));
      apart = λ i j e h k. absurd (omega (arith, no_values i, h));
      accounted = rw (no_slots, b) refl;
    };
    counted = rw (no_slots, d) refl;
  }

-- `init_heap_page` on a page with no slots, no deleted bytes and no deleted slots, as `Page::new`
-- makes it, gives a well-formed page with no value in any slot.
pub init_heap_page-IsWf :
    (p : Array)
    → get_num_slots p ≡ 0
    → get_deleted_bytes p ≡ 0
    → get_deleted_slot_count p ≡ 0
    → IsWf (layout (init_heap_page p)) × ((s : ℕ) → contents (init_heap_page p) s ≡ none)
unfolding init_heap_page
init_heap_page-IsWf p n b d =
    let e = layout-set_free_space_ptr p 4096 (omega arith) in
    (rw e (empty-IsWf p n b d), λ s. contents_dead (init_heap_page p) s (rw e (no_values p n s)))
