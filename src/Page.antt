-- ===== src/Page.antt =====
-- src/storage/heapstore/src/page.rs: the fixed header of a page (page id, log sequence number,
-- checksum), and the comparison of two pages. A page is the function from an index to its byte.
pub mod Fields
pub mod Sequence
pub mod Differences
use crusty_db.Prelude.{
  ℕ, zero, suc, ◌+◌, ◌%◌, Bool, true, false, List, [], ◌∷◌, ◌++◌, ◌==◌, if◌then◌else◌, length,
  OrPanic, check, some, ◌>>=◌, ◌>>◌,
}
use crusty_db.Bytes.{Array, slice, copy, zero_fill, to_le_bytes, from_le_bytes}
use crusty_db.Ids.{Lsn, lsn_lt}

abbrev pub page_id_size : ℕ
page_id_size = 4

abbrev pub slot_id_size : ℕ
slot_id_size = 2

abbrev pub checksum_size : ℕ
checksum_size = 2

abbrev pub lsn_page_offset : ℕ
lsn_page_offset = page_id_size

abbrev pub lsn_slot_offset : ℕ
lsn_slot_offset = lsn_page_offset + page_id_size

abbrev pub checksum_offset : ℕ
checksum_offset = lsn_slot_offset + slot_id_size

-- A little-endian number of `w` bytes at an index.
unfoldable pub read_le : ℕ → Array → ℕ → ℕ
read_le w p i = from_le_bytes (slice p i w)

unfoldable pub write_le : ℕ → Array → ℕ → ℕ → Array
write_le w p i n = copy p i (to_le_bytes w n)

unfoldable pub new : ℕ → Array
unfolding write_le
new page_id =
    let blank : Array = λ i. 0 in
    let p₁ = write_le page_id_size blank 0 page_id in
    let p₂ = write_le slot_id_size (write_le page_id_size p₁ lsn_page_offset 0) lsn_slot_offset 0 in
    let p₃ = write_le checksum_size p₂ checksum_offset 0 in zero_fill (zero_fill p₃ 12 4) 16 8

unfoldable pub get_page_id : Array → ℕ
get_page_id p = read_le page_id_size p 0

unfoldable pub set_page_id : Array → ℕ → Array
set_page_id p page_id = write_le page_id_size p 0 page_id

unfoldable pub get_lsn : Array → Lsn
get_lsn p = record {
  page_id = read_le page_id_size p lsn_page_offset;
  slot_id = read_le slot_id_size p lsn_slot_offset;
}

unfoldable pub set_lsn : Array → Lsn → Array
set_lsn p lsn =
    if lsn_lt (get_lsn p) lsn
    then write_le slot_id_size (write_le page_id_size p lsn_page_offset lsn.page_id) lsn_slot_offset
        lsn.slot_id
    else p

unfoldable pub get_checksum : Array → ℕ
get_checksum p = read_le checksum_size p checksum_offset

-- `hash` is the standard library's `DefaultHasher` on the bytes of a page.
unfoldable pub set_checksum : (List ℕ → ℕ) → Array → Array
set_checksum hash p =
    let p₁ = zero_fill p checksum_offset checksum_size in
    write_le checksum_size p₁ checksum_offset (hash (slice p₁ 0 4096) % 65536)

-- What the loop of `compare_page` keeps.
pub record Diff : Type 0 where
  pub res : List (ℕ × List ℕ)
  pub in_diff : Bool
  pub diff_start : ℕ
  pub diff_vec : List ℕ

-- One round, for the bytes `b₁` and `b₂` at index `i`.
unfoldable pub compare_byte : Diff → ℕ → ℕ → ℕ → Diff
compare_byte d i b₁ b₂ =
    if b₁ == b₂
    then (if d.in_diff
        then record d {
          res = d.res ++ ((d.diff_start % 65536, d.diff_vec) ∷ []);
          diff_vec = [];
          in_diff = false;
        }
        else d)
    else record d {
      diff_start = (if d.in_diff then d.diff_start else i);
      in_diff = true;
      diff_vec = d.diff_vec ++ (b₁ ∷ []);
    }

-- The loop over the two lists from index `i` on.
unfoldable pub compare_from : Diff → ℕ → List ℕ → List ℕ → Diff
unfolding compare_byte
compare_from d i (b₁ ∷ bytes) (b₂ ∷ others) =
    compare_from (compare_byte d i b₁ b₂) (i + 1) bytes others
compare_from d i bytes others = d

abbrev pub no_diff : Diff
no_diff = record { res = []; in_diff = false; diff_start = 0; diff_vec = [] }

-- `bytes` are those of the page; lists of different lengths panic.
unfoldable pub compare_page : List ℕ → List ℕ → OrPanic (List (ℕ × List ℕ))
compare_page bytes other_page = do
  check (length bytes == length other_page)
  some (compare_from no_diff 0 bytes other_page).res
