-- ===== src/Order/Sorting.antt =====
-- `sort_by` gives an ordered permutation.
use Prim.Native.Nat.{Ordering}
use mathlib.Core.List.{Mem, Perm, Pairwise, Pairwise-singleton, forall_mem-cons}
use mathlib.Core.List.Perm
use crusty_db.Prelude.{true, false, List, [], ◌∷◌, ◌≡◌, refl, ap, ◌∙◌, map, inl, inr, Bool-cases}
use crusty_db.Order.{opposite, is_le, IsOrder, insert_by, sort_by}

is_le-opposite : (o : Ordering) → is_le o ≡ false → is_le (opposite o) ≡ true
is_le-opposite Ordering.lt h = absurd cc
is_le-opposite Ordering.eq h = absurd cc
is_le-opposite Ordering.gt h = refl

module _ {A : Type 0} (cmp : A → A → Ordering) where
  abbrev pub Le : A → A → Type 0
  Le a b = is_le (cmp a b) ≡ true

  -- Each element is at most every later one.
  abbrev pub IsSorted : List A → Type 0
  IsSorted = Pairwise Le

  insert_by-perm : (x : A) (l : List A) → Perm (insert_by cmp x l) (x ∷ l)
  unfolding insert_by
  insert_by-perm x [] = Perm.rfl
  insert_by-perm x (y ∷ ys) = elim (Bool-cases (is_le (cmp x y))) [
    | inl e ↦ rw (e, insert_by) Perm.rfl
    | inr e ↦ rw (e, insert_by) (Perm.trans (Perm.cons y (insert_by-perm x ys)) (Perm.swap x y ys))
  ]

  pub sort_by-perm : (l : List A) → Perm (sort_by cmp l) l
  unfolding sort_by
  sort_by-perm [] = Perm.rfl
  sort_by-perm (x ∷ xs) =
      Perm.trans (insert_by-perm x (sort_by cmp xs)) (Perm.cons x (sort_by-perm xs))

  module _ (o : IsOrder cmp) where
    pub le_total : (a b : A) → is_le (cmp a b) ≡ false → Le b a
    le_total a b h = rw (o.flips a b) (is_le-opposite (cmp a b) h)

    at_most :
        (x y : A) (ys : List A)
        → Le x y
        → ((z : A) → Mem z ys → Le x z)
        → (z : A) → Mem z (y ∷ ys)
        → Le x z
    at_most x y ys p h = (forall_mem-cons (λ z. hlevel)).1 (p, h)

    insert_by-IsSorted : (x : A) (l : List A) → IsSorted l → IsSorted (insert_by cmp x l)
    unfolding insert_by
    insert_by-IsSorted x [] Pairwise.nil = Pairwise-singleton _ x
    insert_by-IsSorted x (y ∷ ys) (Pairwise.cons below s) = elim (Bool-cases (is_le (cmp x y))) [
      | inl e ↦
          rw (e, insert_by)
            (Pairwise.cons (at_most x y ys e (λ z m. o.trans x y z e (below z m)))
              (Pairwise.cons below s))
      | inr e ↦
          rw (e, insert_by)
            (Pairwise.cons
              (λ z m.
                at_most y x ys (le_total x y e) below z ((Perm.mem_iff (insert_by-perm x ys)).0 m))
              (insert_by-IsSorted x ys s))
    ]

    pub sort_by-IsSorted : (l : List A) → IsSorted (sort_by cmp l)
    unfolding sort_by
    sort_by-IsSorted [] = Pairwise.nil
    sort_by-IsSorted (x ∷ xs) = insert_by-IsSorted x (sort_by cmp xs) (sort_by-IsSorted xs)

-- To sort the images of a list is to sort it by their comparison.
module _ {A B : Type 0} (f : A → B) (cmp : B → B → Ordering) where
  abbrev pub on : A → A → Ordering
  on a b = cmp (f a) (f b)

  insert_by-map : (x : A) (l : List A) → insert_by cmp (f x) (map f l) ≡ map f (insert_by on x l)
  unfolding insert_by
  insert_by-map x [] = refl
  insert_by-map x (y ∷ ys) = elim (Bool-cases (is_le (cmp (f x) (f y)))) [
    | inl e ↦ rw e refl
    | inr e ↦ rw e (ap (λ l. f y ∷ l) (insert_by-map x ys))
  ]

  pub sort_by-map : (l : List A) → sort_by cmp (map f l) ≡ map f (sort_by on l)
  unfolding sort_by
  sort_by-map [] = refl
  sort_by-map (x ∷ xs) = ap (insert_by cmp (f x)) (sort_by-map xs) ∙ insert_by-map x (sort_by on xs)
