-- ===== src/Tests/Values.antt =====
-- ids.rs on concrete value ids.
use crusty_db.Prelude.{ℕ, ◌≡◌, ◌≢◌, List, none, some, arith, length}
use crusty_db.Ids.{ValueId, to_bytes, from_bytes, to_fixed_bytes}
use crusty_db.Ids.Codec.{IsValueId, from-to_bytes, from-to_fixed_bytes}

abbrev some_id : ValueId
some_id = record { container_id = 258; segment_id = none; page_id = some 70000; slot_id = some 5 }

some_id-IsValueId : IsValueId some_id
some_id-IsValueId = record {
  container = omega arith;
  segment = tt;
  page = omega arith;
  slot = omega arith;
}

from-to_bytes_example : from_bytes (to_bytes some_id) ≡ some some_id
from-to_bytes_example = from-to_bytes some_id some_id-IsValueId

from-to_fixed_bytes_example :
    (some_id.segment_id ≢ none → to_fixed_bytes some_id ≡ none)
    × (some_id.segment_id ≡ none
        → (bs : List ℕ) × (to_fixed_bytes some_id ≡ some bs)
          × (length bs ≡ 10)
          × (from_bytes bs ≡ some some_id))
from-to_fixed_bytes_example = from-to_fixed_bytes some_id some_id-IsValueId
