-- ===== src/Page/Fields.antt =====
-- page.rs: the fields of the fixed header are apart, and a fresh page is ready for the heap page.
use mathlib.Core.Path.{subst, fun_ext}
use crusty_db.Prelude.{
  ℕ, ◌+◌, ◌%◌, ◌^◌, ◌≤◌, ◌<◌, ◌≡◌, refl, ap, ◌∙◌, ◌⊎◌, List, [], ◌∷◌, none, arith,
}
use crusty_db.Bytes.{Array, slice, copy, zero_fill, to_le_bytes, from_le_bytes}
use crusty_db.Bytes.Laws.{
  copy_outside, slice-ext, slice-copy_outside, slice-copy_self, from-to_le_bytes,
  length-to_le_bytes,
}
use crusty_db.Page.{
  read_le, write_le, new, get_page_id, set_page_id, get_lsn, get_checksum, set_checksum,
}
use crusty_db.HeapPage.Header.{
  get_u16, get_num_slots, get_deleted_bytes, get_deleted_slot_count, init_heap_page,
  set_free_space_ptr, put_u16,
}
use crusty_db.HeapPage.Layout.{layout}
use crusty_db.HeapPage.Wf.{IsWf}
use crusty_db.HeapPage.Reading.{contents}
use crusty_db.HeapPage.Starting.{init_heap_page-IsWf}

module _ (w : ℕ) (p : Array) (i n : ℕ) where
  pub read-write_self : n < 256 ^ w → read_le w (write_le w p i n) i ≡ n
  unfolding read_le write_le
  read-write_self h =
      let e : slice (copy p i (to_le_bytes w n)) i w ≡ to_le_bytes w n =
        subst (λ k. slice (copy p i (to_le_bytes w n)) i k ≡ to_le_bytes w n)
          (length-to_le_bytes w n) (slice-copy_self p i (to_le_bytes w n)) in
      ap from_le_bytes e ∙ from-to_le_bytes w n h

  pub read-write_outside :
      (v j : ℕ) → (j + v ≤ i) ⊎ (i + w ≤ j) → read_le v (write_le w p i n) j ≡ read_le v p j
  unfolding read_le write_le
  read-write_outside v j h =
      ap from_le_bytes
        (slice-copy_outside p i (to_le_bytes w n) j v (rw (length-to_le_bytes w n) h))

  pub write_outside : (j : ℕ) → (j < i) ⊎ (i + w ≤ j) → write_le w p i n j ≡ p j
  unfolding write_le
  write_outside j h = copy_outside p i (to_le_bytes w n) j (rw (length-to_le_bytes w n) h)

-- The page id is in the first bytes.
pub get_page_id-front :
    (q p : Array) → ((j : ℕ) → j < 16 → q j ≡ p j) → get_page_id q ≡ get_page_id p
unfolding get_page_id read_le
get_page_id-front q p h = ap from_le_bytes (slice-ext q p 0 4 (λ j a b. h j (omega (arith, b))))

-- A page id of 32 bits that is set is read back; the log sequence number, the checksum and the
-- bytes from the heap page's metadata on stay.
pub get-set_page_id :
    (p : Array) (page_id : ℕ)
    → page_id < 256 ^ 4
    → (get_page_id (set_page_id p page_id) ≡ page_id)
      × (get_lsn (set_page_id p page_id) ≡ get_lsn p)
      × (get_checksum (set_page_id p page_id) ≡ get_checksum p)
      × ((j : ℕ) → 16 ≤ j → set_page_id p page_id j ≡ p j)
unfolding get_page_id set_page_id get_lsn get_checksum
get-set_page_id p page_id h = (
  read-write_self 4 p 0 page_id h,
  rw
      (
        read-write_outside 4 p 0 page_id 4 4 (omega arith),
        read-write_outside 4 p 0 page_id 2 8 (omega arith),
      )
      refl,
  read-write_outside 4 p 0 page_id 2 10 (omega arith),
  λ j k. write_outside 4 p 0 page_id j (omega arith),
)

-- A new page, of a page id of 32 bits, made a heap page: it is well-formed, no slot has a value,
-- and its id is the one given.
pub init-new-IsWf :
    (page_id : ℕ)
    → page_id < 256 ^ 4
    → IsWf (layout (init_heap_page (new page_id)))
      × ((s : ℕ) → contents (init_heap_page (new page_id)) s ≡ none)
      × (get_page_id (init_heap_page (new page_id)) ≡ page_id)
unfolding new get_num_slots get_deleted_bytes get_deleted_slot_count get_u16 init_heap_page
    set_free_space_ptr put_u16 get_page_id read_le write_le
init-new-IsWf page_id h =
    let (w, c) = init_heap_page-IsWf (new page_id) refl refl refl in
    (w, c, from-to_le_bytes 4 page_id h)

-- Zeroing two bytes that have been zeroed and written is zeroing them.
zero_again :
    (p : Array) (n j : ℕ)
    → zero_fill (copy (zero_fill p 10 2) 10 (to_le_bytes 2 n)) 10 2 j ≡ zero_fill p 10 2 j
zero_again p n j = ground arith

-- `set_checksum` stores the low 16 bits of the hash of the page with its checksum zeroed, and
-- changes no other byte; so that doing it again changes nothing, whatever the hash function is.
pub set_checksum_lem :
    (hash : List ℕ → ℕ) (p : Array)
    → (get_checksum (set_checksum hash p) ≡ hash (slice (zero_fill p 10 2) 0 4096) % 65536)
      × ((j : ℕ) → (j < 10) ⊎ (12 ≤ j) → set_checksum hash p j ≡ p j)
      × ((j : ℕ) → set_checksum hash (set_checksum hash p) j ≡ set_checksum hash p j)
unfolding get_checksum set_checksum read_le write_le
set_checksum_lem hash p =
    let z : Array = zero_fill p 10 2 in
    let n : ℕ = hash (slice z 0 4096) % 65536 in
    let q : Array = copy z 10 (to_le_bytes 2 n) in
    let same : zero_fill q 10 2 ≡ z = fun_ext (λ j. zero_again p n j) in
    (
      read-write_self 2 z 10 n (omega arith),
      λ j h. write_outside 2 z 10 n j h ∙ copy_outside p 10 (0 ∷ 0 ∷ []) j h,
      λ j. ap (λ (x : Array). write_le 2 x 10 (hash (slice x 0 4096) % 65536) j) same,
    )
