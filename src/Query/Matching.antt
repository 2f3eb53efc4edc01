-- ===== src/Query/Matching.antt =====
-- nested_loop_join.rs: the loop of `NestedLoopJoin::next`.
use crusty_db.Prelude.{
  ℕ, zero, suc, ◌+◌, ◌≤◌, ◌<◌, ◌≡◌, refl, inl, inr, Bool, true, Bool-cases, List, [], ◌∷◌, ◌++◌,
  Option, none, some, if◌then◌else◌, length, arith, All,
}
use crusty_db.Expr.{BinaryOp}
use crusty_db.Expr.Bytecode.{Operators, ByteCodeExpr}
use crusty_db.Query.{Outcome, ok, Tuple, merge, OpIterator}
use crusty_db.Query.Streams.{IsStream}
use crusty_db.Query.NestedLoopJoin.{NestedLoopJoin, test, next_match}

-- The tuples of a list that match a tuple, merged with it, and those of two lists.
abbrev pub matching :
    {T : Type 0} → (Tuple T → Tuple T → Bool) → Tuple T → List (Tuple T) → List (Tuple T)
matching keep t [] = []
matching keep t (r ∷ rs) = if keep t r then merge t r ∷ matching keep t rs else matching keep t rs

abbrev pub joined :
    {T : Type 0} → (Tuple T → Tuple T → Bool) → List (Tuple T) → List (Tuple T) → List (Tuple T)
joined keep [] rights = []
joined keep (l ∷ ls) rights = matching keep l rights ++ joined keep ls rights

-- The rounds that the left tuples still to come take, with `n` tuples on the right.
abbrev pub rounds : {A : Type 0} → ℕ → List A → ℕ
rounds n [] = 0
rounds n (l ∷ ls) = n + 1 + rounds n ls

module _ {T L R : Type 0} (ops : Operators T) (as_bool : T → Option Bool) (on_left : OpIterator T L)
    (on_right : OpIterator T R) (op : BinaryOp) (left_expr right_expr : ByteCodeExpr T)
    (keep : Tuple T → Tuple T → Bool) where
  -- The join's condition gives the Boolean `keep` on `t` and each of `rs`.
  abbrev pub DecidesRow : List (Tuple T) → Tuple T → Type 0
  DecidesRow rs t = All (λ r. test ops as_bool op left_expr right_expr t r ≡ ok (keep t r)) rs

  abbrev pub DecidesAll : List (Tuple T) → List (Tuple T) → Type 0
  DecidesAll rights ls = All (DecidesRow rights) ls

  abbrev pub at_match : L → R → Option (Tuple T) → NestedLoopJoin T L R
  at_match l r current = record {
    op = op;
    left_expr = left_expr;
    right_expr = right_expr;
    left_child = l;
    right_child = r;
    is_open = true;
    current_tuple = current;
  }

  module _ (first_left : L) (first_right : R) (lefts rights : List (Tuple T))
      (cl : IsStream on_left first_left lefts) (cr : IsStream on_right first_right rights) where
    abbrev pub matches_to_come : Tuple T → List (Tuple T) → List (Tuple T) → List (Tuple T)
    matches_to_come t ls rs = matching keep t rs ++ joined keep ls rights

    abbrev run_match :
        ℕ → L → R → Option (Tuple T) → Outcome (Option (Tuple T) × NestedLoopJoin T L R)
    run_match f l r current = next_match ops as_bool on_left on_right f (at_match l r current)

    pub next_match_yields :
        (f : ℕ) (t : Tuple T) (ls rs : List (Tuple T)) (l : L) (r : R) (y : Tuple T)
        (ys : List (Tuple T))
        → length rs + rounds (length rights) ls < f
        → cl.left ls l
        → cr.left rs r
        → DecidesRow rs t
        → DecidesAll rights ls
        → matches_to_come t ls rs ≡ y ∷ ys
        → (t' : Tuple T) × (ls' : List (Tuple T)) × (rs' : List (Tuple T)) × (l' : L) × (r' : R)
          × (run_match f l r (some t) ≡ ok (some y, at_match l' r' (some t')))
          × cl.left ls' l'
          × cr.left rs' r'
          × DecidesRow rs' t'
          × DecidesAll rights ls'
          × (matches_to_come t' ls' rs' ≡ ys)
          × (length rs' + rounds (length rights) ls' ≤ length rs + rounds (length rights) ls)
    unfolding next_match
    next_match_yields zero t ls rs l r y ys h a b d da e = absurd (omega (arith, h))
    next_match_yields (suc f) t ls (x ∷ rs) l r y ys h a b d da e =
        let (r₁, ran, b₁) = cr.yields x rs r b in
        elim (Bool-cases (keep t x)) [
          | inl k ↦
              let e' : merge t x ∷ matches_to_come t ls rs ≡ y ∷ ys = rw k at e in
              let head : merge t x ≡ y = cc in
              let tail : matches_to_come t ls rs ≡ ys = cc in
              (t, ls, rs, l, r₁, rw (ran, d.0, k, head) refl, a, b₁, d.1, da, tail, omega arith)
          | inr k ↦
              let e' : matches_to_come t ls rs ≡ y ∷ ys = rw k at e in
              let (t', ls', rs', l', r', ran', a', b', d', da', rest, shorter) =
                next_match_yields f t ls rs l r₁ y ys (omega (arith, h)) a b₁ d.1 da e' in
              (
                t',
                ls',
                rs',
                l',
                r',
                rw (ran, d.0, k, ran') refl,
                a',
                b',
                d',
                da',
                rest,
                omega (arith, shorter),
              )
        ]
    next_match_yields (suc f) t [] [] l r y ys h a b d da e = absurd cc
    next_match_yields (suc f) t (x ∷ ls) [] l r y ys h a b d da e =
        let (r₁, ran₁, b₁) = cr.ends r b in
        let (r₂, ran₂, b₂) = cr.rewinds [] r₁ b₁ in
        let (l₁, ran₃, a₁) = cl.yields x ls l a in
        let (t', ls', rs', l', r', ran, a', b', d', da', rest, shorter) =
          next_match_yields f x ls rights l₁ r₂ y ys (omega (arith, h)) a₁ b₂ da.0 da.1 e in
        (
          t',
          ls',
          rs',
          l',
          r',
          rw (ran₁, ran₂, ran₃, ran) refl,
          a',
          b',
          d',
          da',
          rest,
          omega (arith, shorter),
        )

    pub next_match_ends :
        (f : ℕ) (t : Tuple T) (ls rs : List (Tuple T)) (l : L) (r : R)
        → length rs + rounds (length rights) ls + 1 < f
        → cl.left ls l
        → cr.left rs r
        → DecidesRow rs t
        → DecidesAll rights ls
        → matches_to_come t ls rs ≡ []
        → (l' : L) × (r' : R) × (run_match f l r (some t) ≡ ok (none, at_match l' r' none))
          × cl.left [] l'
          × cr.left rights r'
    unfolding next_match
    next_match_ends zero t ls rs l r h a b d da e = absurd (omega (arith, h))
    next_match_ends (suc zero) t ls rs l r h a b d da e = absurd (omega (arith, h))
    next_match_ends (suc (suc f)) t ls (x ∷ rs) l r h a b d da e =
        let (r₁, ran, b₁) = cr.yields x rs r b in
        elim (Bool-cases (keep t x)) [
          | inl k ↦ let e' : merge t x ∷ matches_to_come t ls rs ≡ [] = rw k at e in absurd cc
          | inr k ↦
              let e' : matches_to_come t ls rs ≡ [] = rw k at e in
              let (l', r', ran', a', b') =
                next_match_ends (suc f) t ls rs l r₁ (omega (arith, h)) a b₁ d.1 da e' in
              (l', r', rw (ran, d.0, k, ran') refl, a', b')
        ]
    next_match_ends (suc (suc f)) t [] [] l r h a b d da e =
        let (r₁, ran₁, b₁) = cr.ends r b in
        let (r₂, ran₂, b₂) = cr.rewinds [] r₁ b₁ in
        let (l₁, ran₃, a₁) = cl.ends l a in (l₁, r₂, rw (ran₁, ran₂, ran₃) refl, a₁, b₂)
    next_match_ends (suc (suc f)) t (x ∷ ls) [] l r h a b d da e =
        let (r₁, ran₁, b₁) = cr.ends r b in
        let (r₂, ran₂, b₂) = cr.rewinds [] r₁ b₁ in
        let (l₁, ran₃, a₁) = cl.yields x ls l a in
        let (l', r', ran, a', b') =
          next_match_ends (suc f) x ls rights l₁ r₂ (omega (arith, h)) a₁ b₂ da.0 da.1 e in
        (l', r', rw (ran₁, ran₂, ran₃, ran) refl, a', b')
