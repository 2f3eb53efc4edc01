-- ===== src/Query/Filtering.antt =====
-- filter.rs: `Filter` streams the tuples of its child that pass the predicate.
use crusty_db.Prelude.{
  ℕ, zero, suc, ◌≤◌, ◌<◌, ◌≡◌, refl, Bool, true, false, List, [], ◌∷◌, Option, none, some,
  if◌then◌else◌, length, arith, All, Bool-cases, inl, inr,
}
use crusty_db.Expr.Bytecode.{Operators, ByteCodeExpr}
use crusty_db.Query.{ok, Tuple, OpIterator}
use crusty_db.Query.Streams.{IsStream}
use crusty_db.Query.Filter.{
  new, test, next_passing, configure, open_op, next, close, rewind, filter_operator,
}

-- The tuples that pass a test.
abbrev pub passing : {A : Type 0} → (A → Bool) → List A → List A
passing keep [] = []
passing keep (x ∷ xs) = if keep x then x ∷ passing keep xs else passing keep xs

module _ {T S : Type 0} (ops : Operators T) (as_bool : T → Option Bool) (it : OpIterator T S)
    (predicate : ByteCodeExpr T) (keep : Tuple T → Bool) where
  -- The predicate gives the Boolean `keep` on each tuple.
  abbrev pub Decides : List (Tuple T) → Type 0
  Decides xs = All (λ t. test ops as_bool it predicate t ≡ ok (keep t)) xs

  module _ (first : S) (all : List (Tuple T)) (c : IsStream it first all) where
    -- What is left of the child's tuples when the loop of `next` ends.
    next_passing_end :
        (f : ℕ) (xs : List (Tuple T)) (s : S)
        → length xs < f
        → Decides xs
        → c.left xs s
        → passing keep xs ≡ []
        → (s' : S) × (next_passing ops as_bool it f predicate s ≡ ok (none, s')) × c.left [] s'
    unfolding next_passing
    next_passing_end zero xs s h d l e = absurd (omega (arith, h))
    next_passing_end (suc f) [] s h d l e = let (s₁, ran, l₁) = c.ends s l in (s₁, rw ran refl, l₁)
    next_passing_end (suc f) (x ∷ xs) s h d l e = elim (Bool-cases (keep x)) [
      | inl k ↦ absurd (ground (arith, e, k))
      | inr k ↦
          let (s₁, ran₁, l₁) = c.yields x xs s l in
          let (s₂, ran₂, l₂) =
            next_passing_end f xs s₁ (omega (arith, h)) d.1 l₁ (ground (arith, e, k)) in
          (s₂, rw (ran₁, d.0, k, ran₂) refl, l₂)
    ]

    next_passing_yields :
        (f : ℕ) (xs : List (Tuple T)) (s : S) (y : Tuple T) (ys : List (Tuple T))
        → length xs < f
        → Decides xs
        → c.left xs s
        → passing keep xs ≡ y ∷ ys
        → (s' : S) × (zs : List (Tuple T)) × (next_passing ops as_bool it f predicate s
            ≡ ok (some y, s'))
          × c.left zs s'
          × (passing keep zs ≡ ys)
          × (length zs ≤ length xs)
          × Decides zs
    unfolding next_passing
    next_passing_yields zero xs s y ys h d l e = absurd (omega (arith, h))
    next_passing_yields (suc f) [] s y ys h d l e = absurd cc
    next_passing_yields (suc f) (x ∷ xs) s y ys h d l e = elim (Bool-cases (keep x)) [
      | inl k ↦
          let (s₁, ran, l₁) = c.yields x xs s l in
          let same : x ≡ y = ground (arith, e, k) in
          let rest : passing keep xs ≡ ys = ground (arith, e, k) in
          (s₁, xs, rw (ran, d.0, k, same) refl, l₁, rest, omega arith, d.1)
      | inr k ↦
          let (s₁, ran₁, l₁) = c.yields x xs s l in
          let (s₂, zs, ran₂, l₂, rest, shorter, d₂) =
            next_passing_yields f xs s₁ y ys (omega (arith, h)) d.1 l₁ (ground (arith, e, k)) in
          (s₂, zs, rw (ran₁, d.0, k, ran₂) refl, l₂, rest, omega (arith, shorter), d₂)
    ]

-- Over a child that streams `all` from its state `first`, with a predicate that gives the Boolean `keep` on each tuple
-- of `all`, `Filter` streams the tuples of `all` for which `keep` is true, where each call of
-- `next` has more rounds than `all` has tuples.
pub filter_operator-IsStream :
    {T S : Type 0} (ops : Operators T) (as_bool : T → Option Bool) (it : OpIterator T S)
    (predicate : ByteCodeExpr T) (keep : Tuple T → Bool) (first : S) (all : List (Tuple T))
    (fuel : ℕ)
    → IsStream it first all
    → Decides ops as_bool it predicate keep all
    → length all < fuel
    → IsStream (filter_operator ops as_bool it fuel) (new predicate first) (passing keep all)
unfolding new configure open_op next close rewind
filter_operator-IsStream {T} {S} ops as_bool it predicate keep first all fuel c d enough = record {
  ready = λ f. (f.is_open ≡ false) × (f.predicate ≡ predicate) × c.ready f.child;
  left = λ ys f. (f.is_open ≡ true) × (f.predicate ≡ predicate) × Left ys f.child;
  starts = (refl, refl, c.starts);
  configures = λ f (o, p, r). (o, p, c.configures f.child r);
  opens = λ f (o, p, r).
      let (s, ran, l) = c.opens f.child r in
      (record f { child = s; is_open = true }, rw (o, ran) refl, (refl, p, start s l));
  stays_open = λ ys f (o, p, more). (f, rw o refl, (o, p, more));
  yields = λ y ys f (o, p, (xs, l, e, short, dx)).
      let (s, zs, ran, l', rest, shorter, dz) =
        next_passing_yields ops as_bool it predicate keep first all c fuel xs f.child y ys
          (omega (arith, short, enough)) dx l e in
      (
        record f { child = s },
        rw (o, p, ran) refl,
        (o, p, (zs, l', rest, omega (arith, short, shorter), dz)),
      );
  ends = λ f (o, p, (xs, l, e, short, dx)).
      let (s, ran, l') =
        next_passing_end ops as_bool it predicate keep first all c fuel xs f.child
          (omega (arith, short, enough)) dx l e in
      (record f { child = s }, rw (o, p, ran) refl, (o, p, ([], l', refl, omega arith, tt)));
  rewinds = λ ys f (o, p, (xs, l, e, short, dx)).
      let (s, ran, l') = c.rewinds xs f.child l in
      (record f { child = s }, rw (o, ran) refl, (o, p, start s l'));
  closes = λ ys f (o, p, (xs, l, e, short, dx)).
      let (s, ran) = c.closes xs f.child l in
      (record f { child = s; is_open = false }, rw ran refl);
}
  where
    Left : List (Tuple T) → S → Type 0
    Left ys s =
        (xs : List (Tuple T)) × c.left xs s
        × (passing keep xs ≡ ys)
        × (length xs ≤ length all)
        × Decides ops as_bool it predicate keep xs

    start : (s : S) → c.left all s → Left (passing keep all) s
    start s l = (all, l, refl, omega arith, d)
