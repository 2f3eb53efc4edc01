-- ===== src/Tests/Pages.antt =====
-- heap_page.rs on concrete pages.
use mathlib.Core.Path.{subst}
use crusty_db.Prelude.{
  ℕ, ◌<◌, ◌==◌, if◌then◌else◌, ◌≤◌, ◌≡◌, ◌≢◌, refl, ap, sym, ◌⊎◌, inl, inr, List, [], ◌∷◌, Option,
  none, some, arith, OrPanic,
}
use crusty_db.Bytes.{Array}
use crusty_db.Page.{get_page_id, read_le}
use crusty_db.HeapPage.Header.{
  get_slot_metadata_offset, get_num_slots, get_u16, init_heap_page, set_free_space_ptr, put_u16,
  get_header_size, get_free_space_ptr, get_deleted_bytes, increment_num_slots,
  get_deleted_slot_count, read_u16, set_deleted_bytes, set_deleted_slot_count, set_num_slots,
  write_u16,
}
use crusty_db.HeapPage.Space.{
  compact_page, find_next_free_slot, free_slot_from, gap, get_free_space, insert_by_length,
  live_slots_from, repack, sort_by_length, store_below, write_value_at_slot,
}
use crusty_db.HeapPage.Values.{
  lacks_space, claim_slot, add_value, get_value, delete_value, update_value,
}
use crusty_db.HeapPage.Iter.{collect}
use crusty_db.HeapPage.Layout.{layout}
use crusty_db.HeapPage.Wf.{IsWf}
use crusty_db.HeapPage.Reading.{contents, get_value-contents}
use crusty_db.HeapPage.Deleting.{Changed, delete_value-Changed}
use crusty_db.HeapPage.Updating.{NoRoom, update_value-Changed}
use crusty_db.HeapPage.Adding.{NoSpace, add_value-Changed}
use crusty_db.HeapPage.Compacting.{Compacted, compact_page-Compacted}
use crusty_db.HeapPage.Collecting.{items, collect_lem}
use crusty_db.HeapPage.Starting.{init_heap_page-IsWf}

abbrev pub zeros : Array
zeros i = 0

-- A page whose id is 1.
abbrev blank : Array
blank i = if i == 0 then 1 else 0

abbrev pub fresh : Array
fresh = init_heap_page blank

pub fresh-IsWf : IsWf (layout fresh)
unfolding get_num_slots get_u16 get_deleted_bytes get_deleted_slot_count
fresh-IsWf = (init_heap_page-IsWf blank refl refl refl).0

abbrev pub three_bytes : List ℕ
three_bytes = 7 ∷ 8 ∷ 9 ∷ []

add_value_example :
    (NoSpace fresh 3 × (add_value fresh three_bytes ≡ some none))
    ⊎ ((q : Array) × (j : ℕ) × (contents fresh j ≡ none)
        × ((i : ℕ) → i < j → contents fresh i ≢ none)
        × (¬ NoSpace fresh 3)
        × (add_value fresh three_bytes ≡ some (some (q, j)))
        × Changed fresh q j (some three_bytes))
add_value_example = add_value-Changed fresh three_bytes fresh-IsWf (omega arith)

-- The page that a result of `add_value` holds.
abbrev pub page_in : OrPanic (Option (Array × ℕ)) → Array
page_in (some (some (q, j))) = q
page_in _ = zeros

abbrev pub one_value : Array
one_value = page_in (add_value fresh three_bytes)

pub fresh-slots : get_num_slots fresh ≡ 0
unfolding get_num_slots init_heap_page get_u16 set_free_space_ptr put_u16
fresh-slots = refl

pub fresh-fsp : get_free_space_ptr fresh ≡ 4096
unfolding get_free_space_ptr init_heap_page get_u16 set_free_space_ptr put_u16
fresh-fsp = refl

pub one_value-IsWf : IsWf (layout one_value)
one_value-IsWf = elim add_value_example [
  | inl (full, ran) ↦ absurd (ground (arith, full, fresh-slots, fresh-fsp))
  | inr (q, j, free, lowest, room, ran, c) ↦
      let e : q ≡ one_value = sym (ap page_in ran) in subst (λ x. IsWf (layout x)) e c.wf
]

get_value_example : get_value one_value 0 ≡ some (contents one_value 0)
get_value_example = get_value-contents one_value 0 one_value-IsWf.packed

unfoldable pub running : Unit {0}
unfolding get_value get_slot_metadata_offset get_num_slots get_u16 add_value find_next_free_slot
    free_slot_from init_heap_page set_free_space_ptr put_u16 lacks_space get_header_size gap
    get_free_space_ptr get_free_space get_deleted_bytes claim_slot increment_num_slots
    get_deleted_slot_count read_u16 set_deleted_bytes set_deleted_slot_count set_num_slots write_u16
    compact_page insert_by_length live_slots_from repack sort_by_length store_below
    write_value_at_slot
running = tt

pub three_bytes_stored : get_value one_value 0 ≡ some (some three_bytes)
unfolding running
three_bytes_stored = refl

pub one_value-page_id : get_page_id one_value ≡ 1
unfolding running get_page_id read_le
one_value-page_id = refl

pub one_value-slots : get_num_slots one_value ≡ 1
unfolding running
one_value-slots = refl

delete_value_example :
    ((contents one_value 0 ≡ none) × (delete_value one_value 0 ≡ some none))
    ⊎ ((q : Array) × (contents one_value 0 ≢ none)
        × (delete_value one_value 0 ≡ some (some q))
        × Changed one_value q 0 none)
delete_value_example = delete_value-Changed one_value 0 one_value-IsWf

update_value_example :
    (((contents one_value 0 ≡ none) ⊎ NoRoom one_value 0 4)
      × (update_value one_value 0 (1 ∷ three_bytes) ≡ some none))
    ⊎ ((q : Array) × (contents one_value 0 ≢ none)
        × (¬ NoRoom one_value 0 4)
        × (update_value one_value 0 (1 ∷ three_bytes) ≡ some (some q))
        × Changed one_value q 0 (some (1 ∷ three_bytes)))
update_value_example =
    update_value-Changed one_value 0 (1 ∷ three_bytes) one_value-IsWf (omega arith)

compact_page_example : (q : Array) × (compact_page one_value ≡ some q) × Compacted one_value q
compact_page_example = compact_page-Compacted one_value one_value-IsWf.packed

one_slot : get_num_slots one_value ≤ 2
unfolding running
one_slot = omega arith

collect_example : collect one_value 3 0 ≡ some (items one_value (get_num_slots one_value) 0)
collect_example = collect_lem one_value 2 one_value-IsWf.packed one_slot
