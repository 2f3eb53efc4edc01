-- ===== src/Index/Ordered.antt =====
-- Where a key can stand among entries in ascending order of their keys.
use Prim.Native.Nat.{Ordering}
use mathlib.Core.Path.{subst}
use crusty_db.Prelude.{
  ℕ, ◌≡◌, refl, sym, ◌∙◌, ap, Bool, true, false, List, [], ◌∷◌, ◌++◌, Option, some, inl, inr,
  Bool-cases,
}
use mathlib.Core.Option.{some-injective}
use crusty_db.Ids.{ValueId}
use crusty_db.Order.{is_le, opposite, IsOrder}
use crusty_db.Order.Slices.{
  Decides, compare_slices, same_slices, same_slices_iff, compare_slices-IsOrder, compare_slices-eq,
}
use crusty_db.Index.{NodeEntry, rids_of, last}

both_le : (o : Ordering) → is_le o ≡ true → is_le (opposite o) ≡ true → o ≡ Ordering.eq
both_le Ordering.lt h k = absurd cc
both_le Ordering.eq h k = refl
both_le Ordering.gt h k = absurd cc

own_opposite : (o : Ordering) → o ≡ opposite o → is_le o ≡ true
own_opposite Ordering.lt h = refl
own_opposite Ordering.eq h = refl
own_opposite Ordering.gt h = absurd cc

module _ {T : Type 0} (cmp : T → T → Ordering) where
  -- At most a key, and above it.
  abbrev pub KeyAtMost : List T × ValueId → List T → Type 0
  KeyAtMost e key = is_le (compare_slices cmp e.0 key) ≡ true

  abbrev pub AllAtMost : List (List T × ValueId) → List T → Type 0
  AllAtMost [] key = Unit
  AllAtMost (e ∷ es) key = KeyAtMost e key × AllAtMost es key

  abbrev pub AllAbove : List (List T × ValueId) → List T → Type 0
  AllAbove [] key = Unit
  AllAbove (e ∷ es) key = (is_le (compare_slices cmp e.0 key) ≡ false) × AllAbove es key

  abbrev pub AllAtLeast : List (List T × ValueId) → List T → Type 0
  AllAtLeast [] key = Unit
  AllAtLeast (e ∷ es) key = (is_le (compare_slices cmp key e.0) ≡ true) × AllAtLeast es key

  abbrev pub Ascending : List (List T × ValueId) → Type 0
  Ascending [] = Unit
  Ascending (e ∷ es) = AllAtLeast es e.0 × Ascending es

  pub at_most-append :
      (xs ys : List (List T × ValueId)) (key : List T) → AllAtMost (xs ++ ys) key → AllAtMost xs key
  at_most-append [] ys key h = tt
  at_most-append (x ∷ xs) ys key (a, h) = (a, at_most-append xs ys key h)

  at_least-append :
      (xs ys : List (List T × ValueId)) (key : List T)
      → AllAtLeast (xs ++ ys) key
      → AllAtLeast xs key
  at_least-append [] ys key h = tt
  at_least-append (x ∷ xs) ys key (a, h) = (a, at_least-append xs ys key h)

  pub Ascending-append : (xs ys : List (List T × ValueId)) → Ascending (xs ++ ys) → Ascending xs
  Ascending-append [] ys h = tt
  Ascending-append (x ∷ xs) ys (a, h) = (at_least-append xs ys x.0 a, Ascending-append xs ys h)

  at_most-last :
      (es : List (List T × ValueId)) (key : List T) (e : List T × ValueId)
      → AllAtMost es key
      → last es ≡ some e
      → KeyAtMost e key
  at_most-last [] key e h q = absurd cc
  at_most-last (x ∷ []) key e (a, h) q = rw (sym (some-injective x e q)) a
  at_most-last (x ∷ y ∷ ys) key e (a, h) q = at_most-last (y ∷ ys) key e h q

  at_least-last :
      (es : List (List T × ValueId)) (key : List T) (e : List T × ValueId)
      → AllAtLeast es key
      → last es ≡ some e
      → is_le (compare_slices cmp key e.0) ≡ true
  at_least-last [] key e h q = absurd cc
  at_least-last (x ∷ []) key e (a, h) q = rw (sym (some-injective x e q)) a
  at_least-last (x ∷ y ∷ ys) key e (a, h) q = at_least-last (y ∷ ys) key e h q

  module _ (same : T → T → Bool) (decode : List ℕ → Option (NodeEntry T)) (o : IsOrder cmp)
      (eq : Decides same) (anti : (a b : T) → cmp a b ≡ Ordering.eq → a ≡ b) where
    le-antisym :
        (a b : List T)
        → is_le (compare_slices cmp a b) ≡ true
        → is_le (compare_slices cmp b a) ≡ true
        → a ≡ b
    le-antisym a b h k = compare_slices-eq cmp anti a b (
        both_le (compare_slices cmp a b) h
          (ap is_le (sym ((compare_slices-IsOrder cmp o).flips a b)) ∙ k))

    self_le : (a : List T) → is_le (compare_slices cmp a a) ≡ true
    self_le a = own_opposite (compare_slices cmp a a) ((compare_slices-IsOrder cmp o).flips a a)

    pub above-rids :
        (es : List (List T × ValueId)) (key : List T)
        → AllAbove es key
        → rids_of cmp same decode key es ≡ []
    unfolding rids_of
    above-rids [] key h = refl
    above-rids (e ∷ es) key (a, h) = elim (Bool-cases (same_slices same e.0 key)) [
      | inl q ↦ absurd (
          cc (
            sym a,
            ap (λ k. is_le (compare_slices cmp k key)) ((same_slices_iff same eq e.0 key).0 q),
            self_le key,
          ))
      | inr q ↦ rw q (above-rids es key h)
    ]

    -- Ascending keys that are at most a key and do not end with it do not have it.
    pub below-rids :
        (es : List (List T × ValueId)) (key : List T) (e : List T × ValueId)
        → Ascending es
        → AllAtMost es key
        → last es ≡ some e
        → same_slices same e.0 key ≡ false
        → rids_of cmp same decode key es ≡ []
    unfolding rids_of
    below-rids [] key e asc h l q = refl
    below-rids (x ∷ []) key e asc h l q = rw (ap (λ v. v.0) (some-injective x e l), q) refl
    below-rids (x ∷ y ∷ ys) key e (least, asc) (a, h) l q =
        elim (Bool-cases (same_slices same x.0 key)) [
          | inl r ↦
              let at : x.0 ≡ key = (same_slices_iff same eq x.0 key).0 r in
              let le : is_le (compare_slices cmp key e.0) ≡ true =
                subst (λ k. is_le (compare_slices cmp k e.0) ≡ true) at
                  (at_least-last (y ∷ ys) x.0 e least l) in
              let ends : same_slices same e.0 key ≡ true =
                (same_slices_iff same eq e.0 key).1
                  (le-antisym e.0 key (at_most-last (y ∷ ys) key e h l) le) in
              absurd cc
          | inr r ↦ rw r (below-rids (y ∷ ys) key e asc h l q)
        ]
