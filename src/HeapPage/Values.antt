-- ===== src/HeapPage/Values.antt =====
-- heap_page.rs: the operations on values.
use crusty_db.Prelude.{
  ℕ, ◌+◌, ◌-◌, ◌/◌, ◌%◌, Bool, true, false, ◌||◌, List, Option, none, some, ◌==◌, leb, ltb,
  if◌then◌else◌, length, OrPanic, ◌>>=◌, ◌>>◌, check,
}
use crusty_db.Bytes.{Array, slice, copy, zero_fill}
use crusty_db.HeapPage.Header.{
  get_slot_metadata_offset, page_size, slot_metadata_size, offset_num_bytes, header_start, u16_mod,
  read_u16, write_u16, increment_num_slots, get_free_space_ptr, set_free_space_ptr,
  get_deleted_bytes, set_deleted_bytes, get_deleted_slot_count, set_deleted_slot_count,
  get_header_size,
}
use crusty_db.HeapPage.Space.{gap, get_free_space, find_next_free_slot, write_value_at_slot}

-- Step 3 of `add_value`: the counts, and a new slot's metadata zeroed.
unfoldable pub claim_slot : Array → ℕ → Bool → OrPanic Array
claim_slot p slot_offset true = do
  p₁ ← increment_num_slots p
  check (leb (slot_offset + slot_metadata_size) page_size)
  some (zero_fill p₁ slot_offset slot_metadata_size)
claim_slot p slot_offset false = do
  check (ltb 0 (get_deleted_slot_count p))
  some (set_deleted_slot_count p (get_deleted_slot_count p - 1))

-- Step 2 of `add_value`: whether the value is refused for want of space.
unfoldable pub lacks_space : Array → ℕ → Bool → OrPanic Bool
lacks_space p len true = do
  g ← gap p
  free ← get_free_space p
  some (ltb g slot_metadata_size || leb free (len + slot_metadata_size))
lacks_space p len false = do free ← get_free_space p; some (leb free len)

-- The result `some none` is the source's `None`, which leaves the page as it was.
unfoldable pub add_value : Array → List ℕ → OrPanic (Option (Array × ℕ))
add_value p bytes = do
  slot_offset ← find_next_free_slot p
  let is_new_slot = leb (get_header_size p) slot_offset
  refused ← lacks_space p (length bytes) is_new_slot
  if refused then some none else do
    p₁ ← claim_slot p slot_offset is_new_slot
    let slot_id = (slot_offset - header_start) / slot_metadata_size % u16_mod
    p₂ ← write_value_at_slot p₁ slot_offset bytes
    some (some (p₂, slot_id))

unfoldable pub get_value : Array → ℕ → OrPanic (Option (List ℕ))
get_value p slot_id = elim (get_slot_metadata_offset p slot_id) [
  | none ↦ some none
  | some at ↦ do
    offset ← read_u16 p at
    len ← read_u16 p (at + offset_num_bytes)
    if len == 0 || ltb page_size (offset + len) then some none else some (some (slice p offset len))
]

-- The space of a value that goes: the pointer moves over it if it is the last one written, and
-- it becomes a hole otherwise.
unfoldable pub reclaim : Array → ℕ → ℕ → OrPanic Array
reclaim p offset len =
    if offset == get_free_space_ptr p then some (set_free_space_ptr p (offset + len)) else do
      check (ltb (get_deleted_bytes p + len) u16_mod)
      some (set_deleted_bytes p (get_deleted_bytes p + len))

unfoldable pub delete_value : Array → ℕ → OrPanic (Option Array)
delete_value p slot_id = elim (get_slot_metadata_offset p slot_id) [
  | none ↦ some none
  | some at ↦ do
    offset ← read_u16 p at
    len ← read_u16 p (at + offset_num_bytes)
    if len == 0 || ltb page_size (offset + len) then some none else do
      p₁ ← write_u16 (zero_fill p offset len) (at + offset_num_bytes) 0
      p₂ ← reclaim p₁ offset len
      check (ltb (get_deleted_slot_count p₂ + 1) u16_mod)
      some (some (set_deleted_slot_count p₂ (get_deleted_slot_count p₂ + 1)))
]

-- Branch 3a of `update_value`: the new value fits in the old one's place.
unfoldable pub update_in_place : Array → ℕ → ℕ → ℕ → List ℕ → OrPanic Array
update_in_place p at offset len bytes = do
  let p₁ = copy (zero_fill p offset len) offset bytes
  p₂ ← write_u16 p₁ (at + offset_num_bytes) (length bytes)
  let waste = len - length bytes
  if ltb 0 waste
      then (do
        check (ltb (get_deleted_bytes p₂ + waste) u16_mod)
        some (set_deleted_bytes p₂ (get_deleted_bytes p₂ + waste)))
      else some p₂

-- Branch 3b: the old value goes, and the new one is written elsewhere.
unfoldable pub update_elsewhere : Array → ℕ → ℕ → ℕ → List ℕ → OrPanic (Option Array)
update_elsewhere p at offset len bytes = do
  free ← get_free_space p
  if leb (free + len) (length bytes) then some none else do
    p₁ ← write_u16 (zero_fill p offset len) (at + offset_num_bytes) 0
    p₂ ← reclaim p₁ offset len
    p₃ ← write_value_at_slot p₂ at bytes
    some (some p₃)

unfoldable pub update_value : Array → ℕ → List ℕ → OrPanic (Option Array)
update_value p slot_id bytes = elim (get_slot_metadata_offset p slot_id) [
  | none ↦ some none
  | some at ↦ do
    offset ← read_u16 p at
    len ← read_u16 p (at + offset_num_bytes)
    if len == 0 || ltb page_size (offset + len)
        then some none
        else if leb (length bytes) len
        then (do p₁ ← update_in_place p at offset len bytes; some (some p₁))
        else update_elsewhere p at offset len bytes
]
