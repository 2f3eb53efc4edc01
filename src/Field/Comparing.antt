-- ===== src/Field/Comparing.antt =====
-- datatypes.rs: the comparisons that `Field` derives.
use Prim.Native.Nat.{Ordering}
use crusty_db.Prelude.{ℕ, ◌+◌, ◌%◌, ◌^◌, List, [], ◌∷◌, if◌then◌else◌}
use crusty_db.Order.Lists.{compare_list}
use crusty_db.Field.{Field, big_int, int, small_int, char, string, date, decimal, bool, null}

-- The place of the variant in the enumeration, which is compared first.
unfoldable pub discriminant : Field → ℕ
discriminant (big_int x) = 0
discriminant (int x) = 1
discriminant (small_int x) = 2
discriminant (char i s) = 3
discriminant (string s) = 4
discriminant (decimal whole scale) = 5
discriminant (date x) = 6
discriminant (bool b) = 7
discriminant null = 8

-- The bit pattern of a signed number as a number in the same order.
unfoldable pub biased64 : ℕ → ℕ
biased64 x = (x + 2 ^ 63) % 2 ^ 64

unfoldable pub biased32 : ℕ → ℕ
biased32 x = (x + 2 ^ 31) % 2 ^ 32

unfoldable pub biased16 : ℕ → ℕ
biased16 x = (x + 2 ^ 15) % 2 ^ 16

-- The contents of a variant in their order. A decimal's scale counts only between equal wholes.
unfoldable pub contents : Field → List ℕ
unfolding biased64 biased32 biased16
contents (big_int x) = biased64 x ∷ []
contents (int x) = biased32 x ∷ []
contents (small_int x) = biased16 x ∷ []
contents (char i s) = i ∷ s
contents (string s) = s
contents (decimal whole scale) = biased64 whole ∷ scale ∷ []
contents (date x) = biased64 x ∷ []
contents (bool b) = (if b then 1 else 0) ∷ []
contents null = []

-- `cmp`.
unfoldable pub compare_field : Field → Field → Ordering
unfolding discriminant contents
compare_field a b = compare_list (discriminant a ∷ contents a) (discriminant b ∷ contents b)
