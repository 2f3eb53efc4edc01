-- ===== src/Bytes.antt =====
-- Byte arrays and little-endian numbers: what the storage code takes from Rust's slices
-- (`copy_from_slice`, `to_le_bytes`, `from_le_bytes`). An array is the function from an index to
-- its byte; its length is the caller's, who checks the bounds of each slice.
pub mod Laws
use crusty_db.Prelude.{
  ℕ, zero, suc, ◌+◌, ◌*◌, ◌/◌, ◌%◌, List, [], ◌∷◌, ◌==◌, if◌then◌else◌, replicate,
}

abbrev pub Array : Type 0
Array = ℕ → ℕ

-- `n.to_le_bytes()` of a `w`-byte integer.
abbrev pub to_le_bytes : ℕ → ℕ → List ℕ
to_le_bytes zero n = []
to_le_bytes (suc w) n = (n % 256) ∷ to_le_bytes w (n / 256)

abbrev pub from_le_bytes : List ℕ → ℕ
from_le_bytes [] = 0
from_le_bytes (b ∷ bs) = b + 256 * from_le_bytes bs

-- `a[i..i + n]`.
abbrev pub slice : Array → ℕ → ℕ → List ℕ
slice a i zero = []
slice a i (suc n) = a i ∷ slice a (i + 1) n

-- `a[i..i + bytes.len()].copy_from_slice(bytes)`.
abbrev pub copy : Array → ℕ → List ℕ → Array
copy a i [] j = a j
copy a i (b ∷ bs) j = if j == i then b else copy a (i + 1) bs j

-- `a[i..i + n].fill(0)`.
abbrev pub zero_fill : Array → ℕ → ℕ → Array
zero_fill a i n = copy a i (replicate n 0)
