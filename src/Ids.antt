-- ===== src/Ids.antt =====
-- src/common/src/ids.rs: value ids, log sequence numbers, and the byte formats of a value id.
pub mod Codec
use Prim.Native.Nat.{bit_and}
use crusty_db.Prelude.{
  ℕ, ◌+◌, Bool, true, false, not, ◌||◌, ◌&&◌, List, [], ◌∷◌, ◌++◌, Option, none, some, ◌==◌, ltb,
  leb, if◌then◌else◌, length, OrPanic, ◌>>=◌, ◌>>◌, check, take, drop, replicate, ◌-◌,
}
use crusty_db.Bytes.{to_le_bytes, from_le_bytes}

pub record ValueId : Type 0 where
  pub container_id : ℕ
  pub segment_id : Option ℕ
  pub page_id : Option ℕ
  pub slot_id : Option ℕ

unfoldable pub new_container : ℕ → ValueId
new_container c = record { container_id = c; segment_id = none; page_id = none; slot_id = none }

unfoldable pub new_page : ℕ → ℕ → ValueId
new_page c p = record { container_id = c; segment_id = none; page_id = some p; slot_id = none }

unfoldable pub new_slot : ℕ → ℕ → ℕ → ValueId
new_slot c p s = record { container_id = c; segment_id = none; page_id = some p; slot_id = some s }

-- A bit of the flag byte, and the bytes of a field, for a field that is there.
abbrev pub flag : ℕ → Option ℕ → ℕ
flag bit none = 0
flag bit (some x) = bit

abbrev pub field_bytes : ℕ → Option ℕ → List ℕ
field_bytes w none = []
field_bytes w (some x) = to_le_bytes w x

-- `to_bytes`. The flags are distinct bits, so that `|=` adds them.
unfoldable pub to_bytes : ValueId → List ℕ
to_bytes v =
    (8 + flag 4 v.segment_id + flag 2 v.page_id + flag 1 v.slot_id)
    ∷ (to_le_bytes 2 v.container_id
        ++ (field_bytes 1 v.segment_id ++ (field_bytes 4 v.page_id ++ field_bytes 2 v.slot_id)))

-- The first `w` bytes, and what follows; a panic if there are fewer.
unfoldable pub read_bytes : ℕ → List ℕ → OrPanic (List ℕ × List ℕ)
read_bytes w bs = do check (leb w (length bs)); some (take w bs, drop w bs)

-- A field of `from_bytes`: read if its flag is set. The result has the bytes that are left.
unfoldable pub read_field : ℕ → ℕ → ℕ → List ℕ → OrPanic (Option ℕ × List ℕ)
unfolding read_bytes
read_field bit_flag bit w bs =
    if bit_and bit_flag bit == 0
    then some (none, bs)
    else (do (b, rest) ← read_bytes w bs; some (some (from_le_bytes b), rest))

-- `from_bytes`: the source's `offset` is what has been read.
unfoldable pub from_bytes : List ℕ → OrPanic ValueId
unfolding read_bytes read_field
from_bytes [] = none
from_bytes (bit_flag ∷ rest) = do
  (c, r₁) ← read_bytes 2 rest
  (segment, r₂) ← read_field bit_flag 4 1 r₁
  (page, r₃) ← read_field bit_flag 2 4 r₂
  (slot, r₄) ← read_field bit_flag 1 2 r₃
  some (record {
    container_id = from_le_bytes c;
    segment_id = segment;
    page_id = page;
    slot_id = slot;
  })

-- Zeros up to `n` bytes.
abbrev pub pad_to : ℕ → List ℕ → List ℕ
pad_to n bs = bs ++ replicate (n - length bs) 0

-- `to_fixed_bytes`, ten bytes; a value id with a segment panics.
unfoldable pub to_fixed_bytes : ValueId → OrPanic (List ℕ)
to_fixed_bytes v = elim v.segment_id [
  | some x ↦ none
  | none ↦ some (
      pad_to 10 (
        (8 + flag 2 v.page_id + flag 1 v.slot_id)
        ∷ (to_le_bytes 2 v.container_id ++ (field_bytes 4 v.page_id ++ field_bytes 2 v.slot_id))))
]

-- `to_cp_bytes`: container and page only.
unfoldable pub to_cp_bytes : ValueId → List ℕ
to_cp_bytes v =
    (8 + flag 2 v.page_id)
    ∷ (to_le_bytes 2 v.container_id ++ to_le_bytes 4 (elim v.page_id [ none ↦ 0 | some p ↦ p ]))

pub record Lsn : Type 0 where
  pub page_id : ℕ
  pub slot_id : ℕ

-- The derived `PartialOrd` of `Lsn`, field by field.
unfoldable pub lsn_lt : Lsn → Lsn → Bool
lsn_lt a b = ltb a.page_id b.page_id || (a.page_id == b.page_id && ltb a.slot_id b.slot_id)
