-- ===== src/Field.antt =====
-- src/common/src/datatypes.rs: the fields of a tuple, and their bytes.
-- An integer is its bit pattern, a number below 2^16, 2^32 or 2^64; a string is its bytes.
pub mod Codec
pub mod Comparing
use crusty_db.Prelude.{
  ℕ, ◌+◌, ◌-◌, ◌*◌, ◌%◌, ◌^◌, Bool, true, false, List, [], ◌∷◌, ◌++◌, Option, none, some, ◌==◌, leb,
  if◌then◌else◌, length, take, drop, replicate, OrPanic, ◌>>=◌, ◌>>◌, check,
}
use crusty_db.Bytes.{to_le_bytes, from_le_bytes}

pub data DataType : Type 0 where
  type_big_int type_int type_small_int type_string type_date type_bool type_null : DataType
  type_char : ℕ → DataType
  type_decimal : ℕ → ℕ → DataType

pub data Field : Type 0 where
  big_int int small_int date : ℕ → Field
  char : ℕ → List ℕ → Field
  string : List ℕ → Field
  decimal : ℕ → ℕ → Field
  bool : Bool → Field
  null : Field

-- `From<&Field> for DataType`, with its `*p as u32`.
unfoldable pub dtype : Field → DataType
dtype (big_int x) = type_big_int
dtype (int x) = type_int
dtype (small_int x) = type_small_int
dtype (date x) = type_date
dtype (char i s) = type_char i
dtype (string s) = type_string
dtype (decimal p s) = type_decimal (p % 2 ^ 32) s
dtype (bool b) = type_bool
dtype null = type_null

-- `DataType::size`.
unfoldable pub type_size : DataType → Option ℕ
type_size type_big_int = some 8
type_size type_int = some 4
type_size type_small_int = some 2
type_size (type_char i) = some i
type_size type_string = none
type_size (type_decimal p s) = some 12
type_size type_date = some 8
type_size type_bool = some 1
type_size type_null = some 1

-- `Field::size`.
unfoldable pub size : Field → ℕ
size (big_int x) = 8
size (int x) = 4
size (small_int x) = 2
size (char i s) = i
size (string s) = length s
size (date x) = 8
size (decimal whole scale) = 12
size (bool b) = 1
size null = 1

-- A string that is too long for its field panics.
unfoldable pub to_bytes : Field → OrPanic (List ℕ)
to_bytes (big_int x) = some (to_le_bytes 8 x)
to_bytes (int x) = some (to_le_bytes 4 x)
to_bytes (small_int x) = some (to_le_bytes 2 x)
to_bytes (char i s) = do check (leb (length s) i); some (s ++ replicate (i * 4 - length s) 0)
to_bytes (string s) = some (to_le_bytes 4 (length s) ++ s)
to_bytes (date x) = some (to_le_bytes 8 x)
to_bytes (decimal whole scale) = some (to_le_bytes 8 whole ++ to_le_bytes 4 scale)
to_bytes (bool b) = some ((if b then 1 else 0) ∷ [])
to_bytes null = some (0 ∷ [])

-- `Result<A, CrustyError>` as an option; the slices' bounds are checked.
-- `from_le_bytes(bytes.try_into()?)` of a `w`-byte integer.
unfoldable pub int_from : ℕ → List ℕ → Option ℕ
int_from w bs = if length bs == w then some (from_le_bytes bs) else none

-- `bytes[i..i + n]`.
unfoldable pub range : ℕ → ℕ → List ℕ → OrPanic (List ℕ)
range i n bs = do check (leb (i + n) (length bs)); some (take n (drop i bs))

-- `bytes[0]`.
unfoldable pub first : List ℕ → OrPanic ℕ
first [] = none
first (b ∷ bs) = some b

abbrev pub as_field : Option ℕ → (ℕ → Field) → OrPanic (Option Field)
as_field none make = some none
as_field (some x) make = some (some (make x))

-- `String::from_utf8`, of which `is_utf8` says when it succeeds.
unfoldable pub string_from : (List ℕ → Bool) → List ℕ → (List ℕ → Field) → Option Field
string_from is_utf8 bs make = if is_utf8 bs then some (make bs) else none

module _ (is_utf8 : List ℕ → Bool) where
  -- A panic is `none`, and an error `some none`.
  unfoldable pub from_bytes : List ℕ → DataType → OrPanic (Option Field)
  unfolding int_from range first string_from
  from_bytes bs type_big_int = as_field (int_from 8 bs) big_int
  from_bytes bs type_int = as_field (int_from 4 bs) int
  from_bytes bs type_small_int = as_field (int_from 2 bs) small_int
  from_bytes bs (type_char i) = do s ← range 0 i bs; some (string_from is_utf8 s (char i))
  from_bytes bs type_string = do
    l ← range 0 4 bs
    s ← range 4 (from_le_bytes l) bs
    some (string_from is_utf8 s string)
  from_bytes bs type_date = as_field (int_from 8 bs) date
  from_bytes bs (type_decimal p s) = do
    whole ← range 0 8 bs
    scale ← range 8 4 bs
    some (some (decimal (from_le_bytes whole) (from_le_bytes scale)))
  from_bytes bs type_bool = do b ← first bs; some (some (bool (b == 1)))
  from_bytes bs type_null = do b ← first bs; some (if b == 0 then some null else none)
