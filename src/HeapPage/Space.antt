-- ===== src/HeapPage/Space.antt =====
-- heap_page.rs: free space, compaction, and writing a value.
use crusty_db.Prelude.{
  ℕ, zero, suc, ◌+◌, ◌-◌, ◌*◌, ◌&&◌, List, [], ◌∷◌, some, ◌==◌, leb, ltb, if◌then◌else◌, length,
  OrPanic, ◌>>=◌, ◌>>◌, check,
}
use crusty_db.Bytes.{Array, slice, copy}
use crusty_db.HeapPage.Header.{
  page_size, slot_metadata_size, offset_num_bytes, header_start, read_u16, write_u16, get_num_slots,
  get_free_space_ptr, set_free_space_ptr, get_deleted_bytes, set_deleted_bytes, get_header_size,
}

-- `get_free_space_ptr() - get_header_size()`, which overflows if the pointer is in the header.
unfoldable pub gap : Array → OrPanic ℕ
gap p = do
  check (leb (get_header_size p) (get_free_space_ptr p))
  some (get_free_space_ptr p - get_header_size p)

unfoldable pub get_free_space : Array → OrPanic ℕ
get_free_space p = do g ← gap p; some (g + get_deleted_bytes p)

-- The loop over the slots' lengths: `n` slots are left, the next one's metadata is at `offset`.
unfoldable pub free_slot_from : Array → ℕ → ℕ → OrPanic ℕ
free_slot_from p zero offset = some offset
free_slot_from p (suc n) offset = do
  len ← read_u16 p (offset + offset_num_bytes)
  let rest = free_slot_from p n (offset + slot_metadata_size)
  if len == 0 then some offset else rest

-- The metadata offset of the first slot of length 0, or of the slot after the last.
unfoldable pub find_next_free_slot : Array → OrPanic ℕ
find_next_free_slot p = free_slot_from p (get_num_slots p) header_start

-- Step 1 of `compact_page`: the live slots from `i` on, each with a copy of its value.
unfoldable pub live_slots_from : Array → ℕ → ℕ → OrPanic (List (ℕ × List ℕ))
live_slots_from p zero i = some []
live_slots_from p (suc n) i = do
  offset ← read_u16 p (header_start + i * slot_metadata_size)
  len ← read_u16 p (header_start + i * slot_metadata_size + offset_num_bytes)
  let rest = live_slots_from p n (i + 1)
  if ltb 0 len
      then (do
        check (leb (offset + len) page_size)
        more ← rest
        some ((i, slice p offset len) ∷ more))
      else rest

-- Step 2: `sort_by_key` on the value's length, a stable sort.
unfoldable pub insert_by_length : ℕ × List ℕ → List (ℕ × List ℕ) → List (ℕ × List ℕ)
insert_by_length x [] = x ∷ []
insert_by_length x (y ∷ ys) =
    if leb (length x.1) (length y.1) then x ∷ y ∷ ys else y ∷ insert_by_length x ys

unfoldable pub sort_by_length : List (ℕ × List ℕ) → List (ℕ × List ℕ)
sort_by_length [] = []
sort_by_length (x ∷ xs) = insert_by_length x (sort_by_length xs)

-- Step 3: write the values back, each below the one before. The result has the page and the
-- last `new_fsp`.
unfoldable pub repack : Array → ℕ → List (ℕ × List ℕ) → OrPanic (Array × ℕ)
repack p fsp [] = some (p, fsp)
repack p fsp ((i, bytes) ∷ rest) = do
  check (leb (length bytes) fsp)
  let new_fsp = fsp - length bytes
  p' ← write_u16 (copy p new_fsp bytes) (header_start + i * slot_metadata_size) new_fsp
  repack p' new_fsp rest

unfoldable pub compact_page : Array → OrPanic Array
compact_page p = do
  live ← live_slots_from p (get_num_slots p) 0
  (p', fsp) ← repack p page_size (sort_by_length live)
  some (set_deleted_bytes (set_free_space_ptr p' fsp) 0)

-- Steps 2 and 3 of `write_value_at_slot`: the value below the pointer, and the slot's metadata.
unfoldable pub store_below : Array → ℕ → List ℕ → OrPanic Array
store_below p slot_offset bytes = do
  let current_fsp = get_free_space_ptr p
  check (leb (length bytes) current_fsp && leb current_fsp page_size)
  let new_fsp = current_fsp - length bytes
  let p₁ = set_free_space_ptr (copy p new_fsp bytes) new_fsp
  p₂ ← write_u16 p₁ slot_offset new_fsp
  write_u16 p₂ (slot_offset + offset_num_bytes) (length bytes)

unfoldable pub write_value_at_slot : Array → ℕ → List ℕ → OrPanic Array
write_value_at_slot p slot_offset bytes = do
  g ← gap p
  p₁ ← if ltb g (length bytes) then compact_page p else some p
  store_below p₁ slot_offset bytes
