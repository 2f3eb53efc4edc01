-- ===== src/Index/Tree.antt =====
-- The tree of pages that a search descends, as the pages store it.
use mathlib.Core.List.{append_assoc}
use Prim.Native.Nat.{Ordering}
use mathlib.Core.Path.{subst}
use crusty_db.Prelude.{
  ℕ, ◌≡◌, refl, sym, ◌∙◌, ap, true, false, List, [], ◌∷◌, ◌++◌, Option, some, inl, inr, Bool-cases,
}
use crusty_db.Ids.{ValueId}
use crusty_db.Order.{is_le, IsOrder}
use crusty_db.Order.Slices.{compare_slices, compare_slices-IsOrder}
use crusty_db.Index.Runs.{Leaf, entries_of}
use crusty_db.Index.Ordered.{AllAtMost, AllAtLeast, AllAbove}

mutual
  pub data Tree (T : Type 0) : Type 0 where
    leaf_page : Leaf T → Tree T
    node_page : ℕ → Tree T → Branches T → Tree T

  -- The children after the first, with their separators.
  pub data Branches (T : Type 0) : Type 0 where
    no_branches : Branches T
    branch : List T → Tree T → Branches T → Branches T

abbrev pub page_of : {T : Type 0} → Tree T → ℕ
page_of (leaf_page x) = x.id
page_of (node_page p t bs) = p

abbrev mutual
  pub leaves : {T : Type 0} → Tree T → List (Leaf T)
  leaves (leaf_page x) = x ∷ []
  leaves (node_page p t bs) = leaves t ++ branch_leaves bs

  pub branch_leaves : {T : Type 0} → Branches T → List (Leaf T)
  branch_leaves no_branches = []
  branch_leaves (branch k t bs) = leaves t ++ branch_leaves bs

abbrev pub separators : {T : Type 0} → Branches T → List (Option (List T) × ℕ)
separators no_branches = []
separators (branch k t bs) = (some k, page_of t) ∷ separators bs

entries_of-append :
    {T : Type 0} (xs ys : List (Leaf T)) → entries_of (xs ++ ys) ≡ entries_of xs ++ entries_of ys
entries_of-append [] ys = refl
entries_of-append (x ∷ xs) ys =
    ap (λ l. x.entries ++ l) (entries_of-append xs ys)
    ∙ sym (append_assoc x.entries (entries_of xs) (entries_of ys))

module _ {T : Type 0} (cmp : T → T → Ordering) where
  at_most_join :
      (xs ys : List (List T × ValueId)) (key : List T)
      → AllAtMost cmp xs key
      → AllAtMost cmp ys key
      → AllAtMost cmp (xs ++ ys) key
  at_most_join [] ys key h k = k
  at_most_join (x ∷ xs) ys key (a, h) k = (a, at_most_join xs ys key h k)

  above_join :
      (xs ys : List (List T × ValueId)) (key : List T)
      → AllAbove cmp xs key
      → AllAbove cmp ys key
      → AllAbove cmp (xs ++ ys) key
  above_join [] ys key h k = k
  above_join (x ∷ xs) ys key (a, h) k = (a, above_join xs ys key h k)

  pub at_most_leaves :
      (xs ys : List (Leaf T)) (key : List T)
      → AllAtMost cmp (entries_of xs) key
      → AllAtMost cmp (entries_of ys) key
      → AllAtMost cmp (entries_of (xs ++ ys)) key
  at_most_leaves xs ys key h k =
      subst (λ l. AllAtMost cmp l key) (sym (entries_of-append xs ys))
        (at_most_join (entries_of xs) (entries_of ys) key h k)

  pub above_leaves :
      (xs ys : List (Leaf T)) (key : List T)
      → AllAbove cmp (entries_of xs) key
      → AllAbove cmp (entries_of ys) key
      → AllAbove cmp (entries_of (xs ++ ys)) key
  above_leaves xs ys key h k =
      subst (λ l. AllAbove cmp l key) (sym (entries_of-append xs ys))
        (above_join (entries_of xs) (entries_of ys) key h k)

  module _ (o : IsOrder cmp) where
    pub at_most_trans :
        (es : List (List T × ValueId)) (k key : List T)
        → AllAtMost cmp es k
        → is_le (compare_slices cmp k key) ≡ true
        → AllAtMost cmp es key
    at_most_trans [] k key h l = tt
    at_most_trans (e ∷ es) k key (a, h) l =
        ((compare_slices-IsOrder cmp o).trans e.0 k key a l, at_most_trans es k key h l)

    pub at_least-above :
        (es : List (List T × ValueId)) (k key : List T)
        → AllAtLeast cmp es k
        → is_le (compare_slices cmp k key) ≡ false
        → AllAbove cmp es key
    at_least-above [] k key h l = tt
    at_least-above (e ∷ es) k key (a, h) l = (
      elim (Bool-cases (is_le (compare_slices cmp e.0 key))) [
        | inl q ↦ absurd (cc (sym l, (compare_slices-IsOrder cmp o).trans k e.0 key a q))
        | inr q ↦ q
      ],
      at_least-above es k key h l,
    )
