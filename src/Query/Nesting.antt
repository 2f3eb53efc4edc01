-- ===== src/Query/Nesting.antt =====
-- nested_loop_join.rs: `NestedLoopJoin` streams the pairs of its children's tuples that match.
use crusty_db.Prelude.{
  ℕ, suc, ◌+◌, ◌-◌, ◌≤◌, ◌<◌, ◌≡◌, refl, ◌⊎◌, inl, inr, Bool, true, false, List, [], ◌∷◌, Option,
  none, some, length, arith,
}
use crusty_db.Expr.{BinaryOp}
use crusty_db.Expr.Bytecode.{Operators, ByteCodeExpr}
use crusty_db.Query.{ok, Tuple, OpIterator}
use crusty_db.Query.Streams.{IsStream}
use crusty_db.Query.NestedLoopJoin.{
  NestedLoopJoin, new, next_match, configure, open_op, next, close, rewind, nested_loop_join,
}
use crusty_db.Query.Matching.{
  joined, rounds, DecidesRow, DecidesAll, at_match, matches_to_come, next_match_yields,
  next_match_ends,
}

module _ {T L R : Type 0} (ops : Operators T) (as_bool : T → Option Bool) (on_left : OpIterator T L)
    (on_right : OpIterator T R) (op : BinaryOp) (left_expr right_expr : ByteCodeExpr T)
    (keep : Tuple T → Tuple T → Bool) (first_left : L) (first_right : R)
    (lefts rights : List (Tuple T)) (cl : IsStream on_left first_left lefts)
    (cr : IsStream on_right first_right rights) (fuel : ℕ)
    (enough : rounds (length rights) lefts + 1 < fuel) where
  -- The join's parameters are those given.
  abbrev Params : NestedLoopJoin T L R → Type 0
  Params j = (j.op ≡ op) × (j.left_expr ≡ left_expr) × (j.right_expr ≡ right_expr)

  abbrev the_state : L → R → Option (Tuple T) → NestedLoopJoin T L R
  the_state l r current =
      at_match ops as_bool on_left on_right op left_expr right_expr keep l r current

  abbrev Decided : List (Tuple T) → Type 0
  Decided ls = DecidesAll ops as_bool on_left on_right op left_expr right_expr keep rights ls

  abbrev coming : Tuple T → List (Tuple T) → List (Tuple T) → List (Tuple T)
  coming t ls rs =
      matches_to_come ops as_bool on_left on_right op left_expr right_expr keep first_left
        first_right lefts rights cl cr t ls rs

  -- The tuple whose pairs are being made, if any, and what is to come.
  abbrev Current : List (Tuple T) → List (Tuple T) → List (Tuple T) → Option (Tuple T) → Type 0
  Current ys ls rs current =
      (current ≡ none) × (ys ≡ [])
      ⊎ ((t : Tuple T) × (current ≡ some t)
          × (coming t ls rs ≡ ys)
          × DecidesRow ops as_bool on_left on_right op left_expr right_expr keep rs t
          × (length rs + rounds (length rights) ls ≤ rounds (length rights) lefts))

  -- An open join with `ys` to come.
  abbrev Left : List (Tuple T) → NestedLoopJoin T L R → Type 0
  Left ys j =
      (ls : List (Tuple T)) × (rs : List (Tuple T)) × (j.is_open ≡ true)
      × (Params j)
      × cl.left ls j.left_child
      × cr.left rs j.right_child
      × Decided ls
      × Current ys ls rs j.current_tuple

  kept_parameters : (l : L) (r : R) (current : Option (Tuple T)) → Params (the_state l r current)
  kept_parameters l r current = (refl, refl, refl)

  first_match :
      (xs : List (Tuple T)) (l : L) (r : R)
      → cl.left xs l
      → cr.left rights r
      → Decided xs
      → rounds (length rights) xs ≤ rounds (length rights) lefts
      → (current : Option (Tuple T)) × (l' : L) × (on_left.next l ≡ ok (current, l'))
        × Left (joined keep xs rights) (the_state l' r current)
  first_match [] l r a b d h =
      let (l₁, ran, a₁) = cl.ends l a in
      (none, l₁, ran, ([], rights, refl, kept_parameters l₁ r none, a₁, b, tt, inl (refl, refl)))
  first_match (x ∷ xs) l r a b d h =
      let (l₁, ran, a₁) = cl.yields x xs l a in
      (
        some x,
        l₁,
        ran,
        (
          xs,
          rights,
          refl,
          kept_parameters l₁ r (some x),
          a₁,
          b,
          d.1,
          inr (x, refl, refl, d.0, omega (arith, h)),
        ),
      )

  -- An open join is `the_state` of its parts.
  opened :
      (j : NestedLoopJoin T L R)
      → j.is_open ≡ true
      → Params j
      → j ≡ the_state j.left_child j.right_child j.current_tuple
  opened j o (p, q, s) = λ i. record {
    op = p i;
    left_expr = q i;
    right_expr = s i;
    left_child = j.left_child;
    right_child = j.right_child;
    is_open = o i;
    current_tuple = j.current_tuple;
  }

  yield_match :
      (y : Tuple T) (ys : List (Tuple T)) (j : NestedLoopJoin T L R)
      → Left (y ∷ ys) j
      → (j' : NestedLoopJoin T L R) × (next ops as_bool on_left on_right fuel j ≡ ok (some y, j'))
        × Left ys j'
  unfolding next
  yield_match y ys j (ls, rs, o, ps, a, b, d, inl (gone, e)) = absurd cc
  yield_match y ys j (ls, rs, o, ps, a, b, d, inr (t, cur, e, dr, h)) =
      let (t', ls', rs', l', r', ran, a', b', dr', d', rest, shorter) =
        next_match_yields ops as_bool on_left on_right op left_expr right_expr keep first_left
          first_right lefts rights cl cr fuel t ls rs j.left_child j.right_child y ys
          (omega (arith, h, enough)) a b dr d e in
      (
        the_state l' r' (some t'),
        rw (opened j o ps, cur) ran,
        (
          ls',
          rs',
          refl,
          kept_parameters l' r' (some t'),
          a',
          b',
          d',
          inr (t', refl, rest, dr', omega (arith, h, shorter)),
        ),
      )

  stop_none :
      (f : ℕ) (l : L) (r : R)
      → next_match ops as_bool on_left on_right (suc f) (the_state l r none)
        ≡ ok (none, the_state l r none)
  unfolding next_match
  stop_none f l r = refl

  end_matches :
      (j : NestedLoopJoin T L R)
      → Left [] j
      → (j' : NestedLoopJoin T L R) × (next ops as_bool on_left on_right fuel j ≡ ok (none, j'))
        × Left [] j'
  unfolding next
  end_matches j (ls, rs, o, ps, a, b, d, inl (gone, e)) =
      let f : fuel ≡ suc (fuel - 1) = omega (arith, enough) in
      (
        the_state j.left_child j.right_child none,
        rw (opened j o ps, gone, f) (stop_none (fuel - 1) j.left_child j.right_child),
        (ls, rs, refl, kept_parameters j.left_child j.right_child none, a, b, d, inl (refl, refl)),
      )
  end_matches j (ls, rs, o, ps, a, b, d, inr (t, cur, e, dr, h)) =
      let (l', r', ran, a', b') =
        next_match_ends ops as_bool on_left on_right op left_expr right_expr keep first_left
          first_right lefts rights cl cr fuel t ls rs j.left_child j.right_child
          (omega (arith, h, enough)) a b dr d e in
      (
        the_state l' r' none,
        rw (opened j o ps, cur) ran,
        ([], rights, refl, kept_parameters l' r' none, a', b', tt, inl (refl, refl)),
      )

-- Over children that stream `lefts` and `rights` from their first states, the right one able to be rewound, with a
-- condition that gives the Boolean `keep` on each tuple of `lefts` with each of `rights`,
-- `NestedLoopJoin` streams the pairs for which `keep` is true, merged, in the order of `lefts`
-- and for each in that of `rights`, where each call of `next` has at least two rounds more than
-- there are pairs and tuples of `lefts`.
pub nested_loop_join-IsStream :
    {T L R : Type 0} (ops : Operators T) (as_bool : T → Option Bool) (on_left : OpIterator T L)
    (on_right : OpIterator T R) (op : BinaryOp) (left_expr right_expr : ByteCodeExpr T)
    (keep : Tuple T → Tuple T → Bool) (first_left : L) (first_right : R)
    (lefts rights : List (Tuple T)) (fuel : ℕ)
    → IsStream on_left first_left lefts
    → IsStream on_right first_right rights
    → DecidesAll ops as_bool on_left on_right op left_expr right_expr keep rights lefts
    → rounds (length rights) lefts + 1 < fuel
    → IsStream
        (nested_loop_join ops as_bool on_left on_right fuel)
        (new op left_expr right_expr first_left first_right)
        (joined keep lefts rights)
unfolding new configure open_op close rewind
nested_loop_join-IsStream {T} {L} {R} ops as_bool on_left on_right op left_expr right_expr keep
      first_left first_right lefts rights fuel cl cr decided enough =
    record {
      ready = λ j.
          (j.is_open ≡ false)
          × ((j.op ≡ op) × (j.left_expr ≡ left_expr) × (j.right_expr ≡ right_expr))
          × cl.ready j.left_child
          × cr.ready j.right_child;
      left = Open;
      starts = (refl, (refl, refl, refl), cl.starts, cr.starts);
      configures =
          λ j (o, ps, a, b). (o, ps, cl.configures j.left_child a, cr.configures j.right_child b);
      opens = λ j (o, ps, a, b).
          let (l, ran₁, a₁) = cl.opens j.left_child a in
          let (r, ran₂, b₁) = cr.opens j.right_child b in
          let (current, l', ran₃, more) = start l r a₁ b₁ in
          (at_start l' r current, rw (o, ran₁, ran₂, ran₃, ps.0, ps.1, ps.2) refl, more);
      stays_open =
          λ ys j (ls, rs, o, ps, a, b, d, cur). (j, rw o refl, (ls, rs, o, ps, a, b, d, cur));
      yields = λ y ys j more.
          yield_match ops as_bool on_left on_right op left_expr right_expr keep first_left
            first_right lefts rights cl cr fuel enough y ys j more;
      ends = λ j more.
          end_matches ops as_bool on_left on_right op left_expr right_expr keep first_left
            first_right lefts rights cl cr fuel enough j more;
      rewinds = λ ys j (ls, rs, o, ps, a, b, d, cur).
          let (l, ran₁, a₁) = cl.rewinds ls j.left_child a in
          let (r, ran₂, b₁) = cr.rewinds rs j.right_child b in
          let (current, l', ran₃, more) = start l r a₁ b₁ in
          (at_start l' r current, rw (o, ran₁, ran₂, ran₃, ps.0, ps.1, ps.2) refl, more);
      closes = λ ys j (ls, rs, o, ps, a, b, d, cur).
          let (l, ran₁) = cl.closes ls j.left_child a in
          let (r, ran₂) = cr.closes rs j.right_child b in
          (record j { left_child = l; right_child = r; is_open = false }, rw (ran₁, ran₂) refl);
    }
  where
    Open : List (Tuple T) → NestedLoopJoin T L R → Type 0
    Open =
        Left ops as_bool on_left on_right op left_expr right_expr keep first_left first_right lefts
          rights cl cr fuel enough

    at_start : L → R → Option (Tuple T) → NestedLoopJoin T L R
    at_start l r current =
        at_match ops as_bool on_left on_right op left_expr right_expr keep l r current

    start :
        (l : L) (r : R)
        → cl.left lefts l
        → cr.left rights r
        → (current : Option (Tuple T)) × (l' : L) × (on_left.next l ≡ ok (current, l'))
          × Open (joined keep lefts rights) (at_start l' r current)
    start l r a b =
        first_match ops as_bool on_left on_right op left_expr right_expr keep first_left first_right
          lefts rights cl cr fuel enough lefts l r a b decided (omega arith)
