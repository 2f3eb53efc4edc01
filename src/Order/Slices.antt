-- ===== src/Order/Slices.antt =====
-- `==` and `cmp` of slices, over those of their elements.
use Prim.Native.Nat.{Ordering}
use crusty_db.Prelude.{Bool, true, false, ◌&&◌, ◌≡◌, ◌↔◌, refl, List, [], ◌∷◌, arith}
use crusty_db.Order.{opposite, is_le, and_then, IsOrder}

-- `same` is equality.
abbrev pub Decides : {A : Type 0} → (A → A → Bool) → Type 0
Decides {A} same = (a b : A) → (same a b ≡ true) ↔ (a ≡ b)

module _ {T : Type 0} (same : T → T → Bool) where
  unfoldable pub same_slices : List T → List T → Bool
  same_slices [] [] = true
  same_slices [] (y ∷ ys) = false
  same_slices (x ∷ xs) [] = false
  same_slices (x ∷ xs) (y ∷ ys) = same x y && same_slices xs ys

  module _ (eq : Decides same) where
    pub same_slices_iff : Decides same_slices
    unfolding same_slices
    same_slices_iff [] [] = ground arith
    same_slices_iff [] (y ∷ ys) = ground arith
    same_slices_iff (x ∷ xs) [] = ground arith
    same_slices_iff (x ∷ xs) (y ∷ ys) = ground (arith, eq x y, same_slices_iff xs ys)

module _ {T : Type 0} (cmp : T → T → Ordering) where
  unfoldable pub compare_slices : List T → List T → Ordering
  compare_slices [] [] = Ordering.eq
  compare_slices [] (y ∷ ys) = Ordering.lt
  compare_slices (x ∷ xs) [] = Ordering.gt
  compare_slices (x ∷ xs) (y ∷ ys) = and_then (cmp x y) (compare_slices xs ys)

  module _ (o : IsOrder cmp) where
    compare_slices-flips : (a b : List T) → compare_slices b a ≡ opposite (compare_slices a b)
    unfolding compare_slices
    compare_slices-flips [] [] = refl
    compare_slices-flips [] (y ∷ ys) = refl
    compare_slices-flips (x ∷ xs) [] = refl
    compare_slices-flips (x ∷ xs) (y ∷ ys) = ground (arith, compare_slices-flips xs ys, o.flips x y)

    compare_slices_trans :
        (a b c : List T)
        → is_le (compare_slices a b) ≡ true
        → is_le (compare_slices b c) ≡ true
        → is_le (compare_slices a c) ≡ true
    unfolding compare_slices
    compare_slices_trans [] [] c h k = k
    compare_slices_trans [] (y ∷ ys) [] h k = refl
    compare_slices_trans [] (y ∷ ys) (z ∷ zs) h k = refl
    compare_slices_trans (x ∷ xs) [] c h k = absurd cc
    compare_slices_trans (x ∷ xs) (y ∷ ys) [] h k = absurd cc
    compare_slices_trans (x ∷ xs) (y ∷ ys) (z ∷ zs) h k = ground (
      arith,
      compare_slices_trans xs ys zs,
      o.trans x y z,
      o.trans z x y,
      o.trans y z x,
      o.flips x y,
      o.flips y z,
      o.flips x z,
    )

    pub compare_slices-IsOrder : IsOrder compare_slices
    compare_slices-IsOrder = record { flips = compare_slices-flips; trans = compare_slices_trans }

  -- Only equal slices compare as equal.
  pub compare_slices-eq :
      ((a b : T) → cmp a b ≡ Ordering.eq → a ≡ b)
      → (a b : List T) → compare_slices a b ≡ Ordering.eq
      → a ≡ b
  unfolding compare_slices
  compare_slices-eq anti [] [] h = refl
  compare_slices-eq anti [] (y ∷ ys) h = absurd cc
  compare_slices-eq anti (x ∷ xs) [] h = absurd cc
  compare_slices-eq anti (x ∷ xs) (y ∷ ys) h =
      ground (arith, anti x y, compare_slices-eq anti xs ys)
