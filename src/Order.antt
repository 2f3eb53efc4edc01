-- ===== src/Order.antt =====
-- Comparisons as Rust has them: `Ordering`, what `Ord` asks of `cmp`, the lexicographic order of
-- lists, and `sort_by`, the stable sort of a slice.
pub mod Lists
pub mod Slices
pub mod Sorting
use Prim.Native.Nat.{Ordering}
use crusty_db.Prelude.{Bool, true, false, List, [], ◌∷◌, ◌≡◌, if◌then◌else◌}

abbrev pub opposite : Ordering → Ordering
opposite Ordering.lt = Ordering.gt
opposite Ordering.eq = Ordering.eq
opposite Ordering.gt = Ordering.lt

-- `is_le`.
abbrev pub is_le : Ordering → Bool
is_le Ordering.lt = true
is_le Ordering.eq = true
is_le Ordering.gt = false

-- The first comparison that is not `Equal`.
abbrev pub and_then : Ordering → Ordering → Ordering
and_then Ordering.lt o = Ordering.lt
and_then Ordering.eq o = o
and_then Ordering.gt o = Ordering.gt

-- What `Ord` asks of a comparison: it is a total preorder.
pub record IsOrder {A : Type 0} (cmp : A → A → Ordering) : Type 0 where
  pub flips : (a b : A) → cmp b a ≡ opposite (cmp a b)
  pub trans : (a b c : A) → is_le (cmp a b) ≡ true → is_le (cmp b c) ≡ true → is_le (cmp a c) ≡ true

module _ {A : Type 0} (cmp : A → A → Ordering) where
  -- Before the first element that is not smaller.
  unfoldable pub insert_by : A → List A → List A
  insert_by x [] = x ∷ []
  insert_by x (y ∷ ys) =
      let rest = insert_by x ys in if is_le (cmp x y) then x ∷ y ∷ ys else (y ∷ rest)

  unfoldable pub sort_by : List A → List A
  unfolding insert_by
  sort_by [] = []
  sort_by (x ∷ xs) = insert_by x (sort_by xs)
