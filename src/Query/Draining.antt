-- ===== src/Query/Draining.antt =====
-- The loop `while let Some(t) = self.child.next()? { .. }` of the operators that read a child to
-- its end when they are opened.
use crusty_db.Prelude.{ℕ, zero, suc, ◌<◌, ◌≡◌, refl, List, [], ◌∷◌, none, some, length, arith}
use crusty_db.Query.{Outcome, ok, panicked, ◌>>=◌, split_first, Tuple, OpIterator}
use crusty_db.Query.Executor.{IsPass}

module _ {T S A : Type 0} (it : OpIterator T S) (step : A → Tuple T → Outcome A) where
  -- On fuel, of which each round takes one; running out of it counts as a panic.
  unfoldable pub fold_child : ℕ → A → S → Outcome (A × S)
  fold_child zero acc s = panicked
  fold_child (suc fuel) acc s = do
    (item, s') ← it.next s
    elim item [ none ↦ ok (acc, s') | some t ↦ do acc' ← step acc t; fold_child fuel acc' s' ]

  -- The loop's body over a list.
  abbrev pub fold_tuples : A → List (Tuple T) → Outcome A
  fold_tuples acc [] = ok acc
  fold_tuples acc (t ∷ ts) = step acc t >>= λ a. fold_tuples a ts

  module _ (first : S) (all : List (Tuple T)) (c : IsPass it first all) where
    -- Over a child with the tuples `xs` left, the loop folds over these.
    pub fold_child_lem :
        (fuel : ℕ) (xs : List (Tuple T)) (acc r : A) (s : S)
        → length xs < fuel
        → c.left xs s
        → fold_tuples acc xs ≡ ok r
        → (s' : S) × (fold_child fuel acc s ≡ ok (r, s')) × c.left [] s'
    unfolding fold_child
    fold_child_lem zero xs acc r s h l e = absurd (omega (arith, h))
    fold_child_lem (suc fuel) [] acc r s h l e =
        let (s', ran, l') = c.ends s l in let same : acc ≡ r = cc in (s', rw (ran, same) refl, l')
    fold_child_lem (suc fuel) (x ∷ xs) acc r s h l e =
        let (s₁, ran₁, l₁) = c.yields x xs s l in
        let (a, q, e') = split_first (step acc x) (λ a. fold_tuples a xs) e in
        let (s₂, ran₂, l₂) = fold_child_lem fuel xs a r s₁ (omega (arith, h)) l₁ e' in
        (s₂, rw (ran₁, q, ran₂) refl, l₂)

-- A child that has been closed can be closed again.
abbrev pub ClosesAgain : {T S : Type 0} → OpIterator T S → Type 0
ClosesAgain {S = S} it = (s s' : S) → it.close s ≡ ok s' → (s'' : S) × (it.close s' ≡ ok s'')
