-- ===== src/HeapPage/Sorting.antt =====
-- The list of live slots that `compact_page` sorts: it is looked up by slot, and sorting it by the
-- values' lengths loses and changes nothing.
use crusty_db.Prelude.{
  ℕ, ◌+◌, ◌<◌, ◌≡◌, refl, List, [], ◌∷◌, Option, none, some, ◌==◌, leb, if◌then◌else◌, length,
  arith, Bool-cases, inl, inr, All,
}
use crusty_db.HeapPage.Space.{insert_by_length, sort_by_length}

abbrev pub find : ℕ → List (ℕ × List ℕ) → Option (List ℕ)
find k [] = none
find k ((i, b) ∷ l) = if i == k then some b else find k l

-- No slot twice.
abbrev pub Distinct : List (ℕ × List ℕ) → Type 0
Distinct [] = Unit {0}
Distinct (x ∷ l) = (find x.0 l ≡ none) × Distinct l

abbrev pub sizes : List (ℕ × List ℕ) → ℕ
sizes [] = 0
sizes (x ∷ l) = length x.1 + sizes l

abbrev pub Below : ℕ → List (ℕ × List ℕ) → Type 0
Below n = All (λ x. x.0 < n)

module _ (x : ℕ × List ℕ) where
  find-insert :
      (k : ℕ) (l : List (ℕ × List ℕ))
      → find x.0 l ≡ none
      → find k (insert_by_length x l) ≡ (if x.0 == k then some x.1 else find k l)
  unfolding insert_by_length
  find-insert k [] h = refl
  find-insert k (y ∷ l) h = ground (arith, find-insert k l)

  insert-Distinct :
      (l : List (ℕ × List ℕ)) → find x.0 l ≡ none → Distinct l → Distinct (insert_by_length x l)
  unfolding insert_by_length
  insert-Distinct [] h d = (refl, tt)
  insert-Distinct (y ∷ l) h d = elim (Bool-cases (leb (length x.1) (length y.1))) [
    | inl first ↦ rw first (h, d)
    | inr later ↦ rw later (ground (arith, find-insert y.0 l), insert-Distinct l (ground arith) d.1)
  ]

  sizes-insert : (l : List (ℕ × List ℕ)) → sizes (insert_by_length x l) ≡ length x.1 + sizes l
  unfolding insert_by_length
  sizes-insert [] = refl
  sizes-insert (y ∷ l) = ground (arith, sizes-insert l)

  insert-Below :
      (n : ℕ) (l : List (ℕ × List ℕ)) → x.0 < n → Below n l → Below n (insert_by_length x l)
  unfolding insert_by_length
  insert-Below n [] h b = (h, tt)
  insert-Below n (y ∷ l) h b = elim (Bool-cases (leb (length x.1) (length y.1))) [
    | inl first ↦ rw first (h, b)
    | inr later ↦ rw later (b.0, insert-Below n l h b.1)
  ]

pub find-sort : (k : ℕ) (l : List (ℕ × List ℕ)) → Distinct l → find k (sort_by_length l) ≡ find k l
unfolding sort_by_length
find-sort k [] d = refl
find-sort k (x ∷ l) d =
    ground (arith, find-insert x k (sort_by_length l), find-sort k l d.1, find-sort x.0 l d.1)

pub sort-Distinct : (l : List (ℕ × List ℕ)) → Distinct l → Distinct (sort_by_length l)
unfolding sort_by_length
sort-Distinct [] d = tt
sort-Distinct (x ∷ l) d =
    insert-Distinct x (sort_by_length l) (rw (find-sort x.0 l d.1) d.0) (sort-Distinct l d.1)

pub sizes-sort : (l : List (ℕ × List ℕ)) → sizes (sort_by_length l) ≡ sizes l
unfolding sort_by_length
sizes-sort [] = refl
sizes-sort (x ∷ l) = omega (arith, sizes-insert x (sort_by_length l), sizes-sort l)

pub sort-Below : (n : ℕ) (l : List (ℕ × List ℕ)) → Below n l → Below n (sort_by_length l)
unfolding sort_by_length
sort-Below n [] b = tt
sort-Below n (x ∷ l) b = insert-Below x n (sort_by_length l) b.0 (sort-Below n l b.1)
