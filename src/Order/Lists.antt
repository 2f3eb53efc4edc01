-- ===== src/Order/Lists.antt =====
-- The lexicographic order of lists of numbers.
use Prim.Native.Nat.{Ordering, compare}
use crusty_db.Prelude.{ℕ, List, [], ◌∷◌, ◌≡◌, refl, true, arith}
use crusty_db.Order.{opposite, is_le, and_then, IsOrder}

-- `cmp` of slices: the first elements that differ decide, else the length.
unfoldable pub compare_list : List ℕ → List ℕ → Ordering
compare_list [] [] = Ordering.eq
compare_list [] (y ∷ ys) = Ordering.lt
compare_list (x ∷ xs) [] = Ordering.gt
compare_list (x ∷ xs) (y ∷ ys) = and_then (compare x y) (compare_list xs ys)

compare_list-flips : (a b : List ℕ) → compare_list b a ≡ opposite (compare_list a b)
unfolding compare_list
compare_list-flips [] [] = refl
compare_list-flips [] (y ∷ ys) = refl
compare_list-flips (x ∷ xs) [] = refl
compare_list-flips (x ∷ xs) (y ∷ ys) = ground (arith, compare_list-flips xs ys)

compare_list_trans :
    (a b c : List ℕ)
    → is_le (compare_list a b) ≡ true
    → is_le (compare_list b c) ≡ true
    → is_le (compare_list a c) ≡ true
unfolding compare_list
compare_list_trans [] [] c h k = k
compare_list_trans [] (y ∷ ys) [] h k = refl
compare_list_trans [] (y ∷ ys) (z ∷ zs) h k = refl
compare_list_trans (x ∷ xs) [] c h k = absurd cc
compare_list_trans (x ∷ xs) (y ∷ ys) [] h k = absurd cc
compare_list_trans (x ∷ xs) (y ∷ ys) (z ∷ zs) h k = ground (arith, compare_list_trans xs ys zs)

pub compare_list-IsOrder : IsOrder compare_list
compare_list-IsOrder = record { flips = compare_list-flips; trans = compare_list_trans }

-- Only equal lists compare as equal.
pub compare_list-eq : (a b : List ℕ) → compare_list a b ≡ Ordering.eq → a ≡ b
unfolding compare_list
compare_list-eq [] [] h = refl
compare_list-eq [] (y ∷ ys) h = absurd cc
compare_list-eq (x ∷ xs) [] h = absurd cc
compare_list-eq (x ∷ xs) (y ∷ ys) h = ground (arith, compare_list-eq xs ys)

pub compare_list_self : (a : List ℕ) → compare_list a a ≡ Ordering.eq
unfolding compare_list
compare_list_self [] = refl
compare_list_self (x ∷ xs) = ground (arith, compare_list_self xs)
