-- ===== src/HeapPage/Header.antt =====
-- heap_page.rs and the constants of page.rs: the header's fields and the slot metadata.
use crusty_db.Prelude.{
  Option, none, if◌then◌else◌, ℕ, ◌+◌, ◌*◌, some, leb, ltb, OrPanic, ◌>>◌, check,
}
use crusty_db.Bytes.{Array, slice, copy, to_le_bytes, from_le_bytes}

abbrev pub page_size : ℕ
page_size = 4096

abbrev pub page_fixed_header_len : ℕ
page_fixed_header_len = 16

abbrev pub heap_page_fixed_metadata_size : ℕ
heap_page_fixed_metadata_size = 8

abbrev pub slot_metadata_size : ℕ
slot_metadata_size = 4

abbrev pub offset_num_bytes : ℕ
offset_num_bytes = 2

-- Where the heap metadata and the slots start, counted from the start of the page.
abbrev pub num_slots_offset : ℕ
num_slots_offset = 16

abbrev pub free_space_ptr_offset : ℕ
free_space_ptr_offset = 18

abbrev pub deleted_bytes_offset : ℕ
deleted_bytes_offset = 20

abbrev pub deleted_slot_count_offset : ℕ
deleted_slot_count_offset = 22

abbrev pub header_start : ℕ
header_start = 24

abbrev pub u16_mod : ℕ
u16_mod = 65536

-- A little-endian u16 at an index, with no check of bounds and with it.
unfoldable pub get_u16 : Array → ℕ → ℕ
get_u16 p i = from_le_bytes (slice p i 2)

unfoldable pub put_u16 : Array → ℕ → ℕ → Array
put_u16 p i v = copy p i (to_le_bytes 2 v)

unfoldable pub read_u16 : Array → ℕ → OrPanic ℕ
read_u16 p i = do check (leb (i + 2) page_size); some (get_u16 p i)

unfoldable pub write_u16 : Array → ℕ → ℕ → OrPanic Array
write_u16 p i v = do check (leb (i + 2) page_size); some (put_u16 p i v)

unfoldable pub get_num_slots : Array → ℕ
get_num_slots p = get_u16 p num_slots_offset

unfoldable pub set_num_slots : Array → ℕ → Array
set_num_slots p n = put_u16 p num_slots_offset n

unfoldable pub increment_num_slots : Array → OrPanic Array
increment_num_slots p = do
  check (ltb (get_num_slots p + 1) u16_mod)
  some (set_num_slots p (get_num_slots p + 1))

unfoldable pub get_free_space_ptr : Array → ℕ
get_free_space_ptr p = get_u16 p free_space_ptr_offset

unfoldable pub set_free_space_ptr : Array → ℕ → Array
set_free_space_ptr p ptr = put_u16 p free_space_ptr_offset ptr

unfoldable pub get_deleted_bytes : Array → ℕ
get_deleted_bytes p = get_u16 p deleted_bytes_offset

unfoldable pub set_deleted_bytes : Array → ℕ → Array
set_deleted_bytes p n = put_u16 p deleted_bytes_offset n

unfoldable pub get_deleted_slot_count : Array → ℕ
get_deleted_slot_count p = get_u16 p deleted_slot_count_offset

unfoldable pub set_deleted_slot_count : Array → ℕ → Array
set_deleted_slot_count p n = put_u16 p deleted_slot_count_offset n

unfoldable pub get_header_size : Array → ℕ
get_header_size p =
    page_fixed_header_len + heap_page_fixed_metadata_size + get_num_slots p * slot_metadata_size

unfoldable pub init_heap_page : Array → Array
init_heap_page p = set_free_space_ptr p page_size

-- `none` is the source's -1.
unfoldable pub get_slot_metadata_offset : Array → ℕ → Option ℕ
get_slot_metadata_offset p slot_id =
    if leb (get_num_slots p) slot_id
    then none
    else some (header_start + slot_id * slot_metadata_size)
