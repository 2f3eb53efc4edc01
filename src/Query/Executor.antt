-- ===== src/Query/Executor.antt =====
-- src/queryexe/src/query/executor.rs: `Executor::execute`, which runs a plan to its end.
use crusty_db.Prelude.{
  ℕ, zero, suc, ◌<◌, ◌≡◌, refl, true, false, List, [], ◌∷◌, ◌++◌, Option, none, some, length, arith,
}
use crusty_db.Query.{Outcome, ok, panicked, ◌>>=◌, Tuple, OpIterator}
use crusty_db.Query.TupleIterator.{
  TupleIterator, reverse, pop, new, configure, open_op, next, close, tuple_iterator,
}

-- The executor's plan; the managers are those of the storage, which `execute` does not use.
pub record Executor (S : Type 0) : Type 0 where
  pub plan : Option S

module _ {T S : Type 0} (it : OpIterator T S) where
  -- The loop over `next`, on fuel, of which each round takes one; running out of it counts as a
  -- panic.
  unfoldable pub collect_tuples : ℕ → S → Outcome (List (Tuple T) × S)
  collect_tuples zero s = panicked
  collect_tuples (suc fuel) s = do
    (item, s') ← it.next s
    let rest = collect_tuples fuel s'
    elim item [ none ↦ ok ([], s') | some t ↦ do (ts, s₂) ← rest; ok (t ∷ ts, s₂) ]

  unfoldable pub execute : ℕ → Executor S → Outcome (List (Tuple T) × Executor S)
  unfolding collect_tuples
  execute fuel e = elim e.plan [
    | none ↦ panicked
    | some s ↦ do
      s₁ ← it.open_op (it.configure false s)
      (res, s₂) ← collect_tuples fuel s₁
      s₃ ← it.close s₂
      ok (res, record { plan = none })
  ]

-- From the state `first`, configured to be read once and opened, the operator gives the tuples of
-- `all`, in order, and then `None`; it can be closed at any time.
pub record IsPass {T S : Type 0} (it : OpIterator T S) (first : S) (all : List (Tuple T))
    : Type 1 where
  pub left : List (Tuple T) → S → Type 0
  pub opens : (s : S) × (it.open_op (it.configure false first) ≡ ok s) × left all s
  pub yields :
      (x : Tuple T) (xs : List (Tuple T)) (s : S)
      → left (x ∷ xs) s
      → (s' : S) × (it.next s ≡ ok (some x, s')) × left xs s'
  pub ends : (s : S) → left [] s → (s' : S) × (it.next s ≡ ok (none, s')) × left [] s'
  pub closes : (xs : List (Tuple T)) (s : S) → left xs s → (s' : S) × (it.close s ≡ ok s')

module _ {T S : Type 0} (it : OpIterator T S) (first : S) (all : List (Tuple T))
    (c : IsPass it first all) where
  collect_left :
      (f : ℕ) (xs : List (Tuple T)) (s : S)
      → length xs < f
      → c.left xs s
      → (s' : S) × (collect_tuples it f s ≡ ok (xs, s')) × c.left [] s'
  unfolding collect_tuples
  collect_left zero xs s h l = absurd (omega (arith, h))
  collect_left (suc f) [] s h l = let (s', ran, l') = c.ends s l in (s', rw ran refl, l')
  collect_left (suc f) (x ∷ xs) s h l =
      let (s₁, ran₁, l₁) = c.yields x xs s l in
      let (s₂, ran₂, l₂) = collect_left f xs s₁ (omega (arith, h)) l₁ in
      (s₂, rw (ran₁, ran₂) refl, l₂)

-- `execute` of a plan that gives the tuples of `all` when it is read once returns exactly these,
-- in order, in more rounds than there are tuples, and takes the plan: executing again panics.
pub execute_lem :
    {T S : Type 0} (it : OpIterator T S) (first : S) (all : List (Tuple T)) (fuel : ℕ)
    → IsPass it first all
    → length all < fuel
    → (execute it fuel (record { plan = some first }) ≡ ok (all, record { plan = none }))
      × (execute it fuel (record { plan = none }) ≡ panicked)
unfolding execute
execute_lem it first all fuel c h =
    let (s₁, ran₁, l₁) = c.opens in
    let (s₂, ran₂, l₂) = collect_left it first all c fuel all s₁ h l₁ in
    let (s₃, ran₃) = c.closes [] s₂ l₂ in (rw (ran₁, ran₂, ran₃) refl, refl)

pub pop-append : {A : Type 0} (xs : List A) (x : A) → pop (xs ++ (x ∷ [])) ≡ (some x, xs)
pop-append [] x = refl
pop-append (y ∷ []) x = refl
pop-append (y ∷ z ∷ zs) x = rw (pop-append (z ∷ zs) x) refl

-- Read once, a `TupleIterator` gives the tuples it was made of, in order: it pops them off the
-- reversed list.
pub tuple_iterator-IsPass :
    {T : Type 0} (all : List (Tuple T)) → IsPass (tuple_iterator {T = T}) (new all) all
unfolding new configure open_op next close
tuple_iterator-IsPass {T} all = record {
  left = Left;
  opens = (_, refl, (refl, refl, refl));
  yields = λ x xs s (o, w, t). (
    record s { tuples = reverse xs },
    rw (o, w, t, pop-append (reverse xs) x) refl,
    (o, w, refl),
  );
  ends = λ s (o, w, t). (record s { tuples = [] }, rw (o, w, t) refl, (o, w, refl));
  closes = λ xs s l. (_, refl);
}
  where
    Left : List (Tuple T) → TupleIterator T → Type 0
    Left xs s = (s.is_open ≡ true) × (s.will_rewind ≡ false) × (s.tuples ≡ reverse xs)
