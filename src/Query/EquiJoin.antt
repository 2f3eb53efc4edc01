-- ===== src/Query/EquiJoin.antt =====
-- hash_join.rs: what `HashEqJoin` gives when it is read once.
use crusty_db.Prelude.{
  ℕ, suc, ◌+◌, ◌-◌, ◌≤◌, ◌<◌, ◌≡◌, refl, ◌⊎◌, inl, inr, Bool, false, List, [], ◌∷◌, Option, none,
  some, length, arith,
}
use crusty_db.Expr.Bytecode.{Operators, ByteCodeExpr}
use crusty_db.Query.{ok, Tuple, OpIterator}
use crusty_db.Order.Slices.{Decides}
use crusty_db.Query.Executor.{IsPass}
use crusty_db.Query.Draining.{fold_child_lem}
use crusty_db.Query.HashJoin.{
  HashEqJoin, new, add_tuple, configure, open_op, next, close, hash_join,
}
use crusty_db.Query.Hashing.{
  HasKey, partners, matches, build, read_left, at_tuple, to_come, IsAt, next_tuple_yields,
  next_tuple_ends, stop_none,
}

module _ {T L R : Type 0} (ops : Operators T) (same : T → T → Bool) (eq : Decides same)
    (on_left : OpIterator T L) (on_right : OpIterator T R) (left_expr right_expr : ByteCodeExpr T)
    (left_key right_key : Tuple T → T) (lefts : List (Tuple T)) (first_right : R)
    (rights : List (Tuple T)) (first_left : L) (cl : IsPass on_left first_left lefts)
    (cr : IsPass on_right first_right rights) (fuel : ℕ) (enough_left : length lefts < fuel)
    (enough : length rights + 1 < fuel) where
  abbrev open_at : L → R → Option (Tuple T) → ℕ → HashEqJoin T L R
  open_at =
      at_tuple ops same eq on_left on_right left_expr right_expr left_key right_key lefts
        first_right rights cr

  abbrev coming : Tuple T → List (Tuple T) → List (Tuple T) → List (Tuple T)
  coming =
      to_come ops same eq on_left on_right left_expr right_expr left_key right_key lefts first_right
        rights cr

  abbrev IsFrom : Tuple T → ℕ → List (Tuple T) → Type 0
  IsFrom =
      IsAt ops same eq on_left on_right left_expr right_expr left_key right_key lefts first_right
        rights cr

  abbrev RightKeys : List (Tuple T) → Type 0
  RightKeys =
      HasKey ops same eq on_left on_right left_expr right_expr left_key right_key right_expr
        right_key

  -- An open join with `ys` to come.
  abbrev Left : List (Tuple T) → HashEqJoin T L R → Type 0
  Left ys j =
      (l : L) × (r : R) × cl.left [] l
      × (((j ≡ open_at l r none 0) × (ys ≡ []) × cr.left [] r)
          ⊎ ((t : Tuple T) × (todo : List (Tuple T)) × (rs : List (Tuple T)) × (idx : ℕ) × (j
                ≡ open_at l r (some t) idx)
              × (length rs ≤ length rights)
              × cr.left rs r
              × RightKeys (t ∷ rs)
              × IsFrom t idx todo
              × (coming t todo rs ≡ ys)))

  yield_match :
      (y : Tuple T) (ys : List (Tuple T)) (j : HashEqJoin T L R)
      → Left (y ∷ ys) j
      → (j' : HashEqJoin T L R) × (next ops same on_left on_right fuel j ≡ ok (some y, j'))
        × Left ys j'
  unfolding next
  yield_match y ys j (l, r, b, inl (here, e, a)) = absurd cc
  yield_match y ys j (l, r, b, inr (t, todo, rs, idx, here, short, a, k, at, e)) =
      let (t', todo', rs', idx', r', ran, short', a', k', at', e') =
        next_tuple_yields ops same eq on_left on_right left_expr right_expr left_key right_key lefts
          first_right rights cr fuel t todo rs idx l r y ys (omega (arith, short, enough)) a k at
          e in
      (
        open_at l r' (some t') idx',
        rw here ran,
        (l, r', b, inr (t', todo', rs', idx', refl, omega (arith, short, short'), a', k', at', e')),
      )

  end_matches :
      (j : HashEqJoin T L R)
      → Left [] j
      → (j' : HashEqJoin T L R) × (next ops same on_left on_right fuel j ≡ ok (none, j'))
        × Left [] j'
  unfolding next
  end_matches j (l, r, b, inl (here, e, a)) =
      let f : fuel ≡ suc (fuel - 1) = omega (arith, enough) in
      (
        open_at l r none 0,
        rw (here, f)
            (stop_none ops same eq on_left on_right left_expr right_expr left_key right_key lefts
              first_right rights cr (fuel - 1) l r),
        (l, r, b, inl (refl, refl, a)),
      )
  end_matches j (l, r, b, inr (t, todo, rs, idx, here, short, a, k, at, e)) =
      let (r', ran, a') =
        next_tuple_ends ops same eq on_left on_right left_expr right_expr left_key right_key lefts
          first_right rights cr fuel t todo rs idx l r (omega (arith, short, enough)) a k at e in
      (open_at l r' none 0, rw here ran, (l, r', b, inl (refl, refl, a')))

  -- The first right tuple is read when the join is opened.
  first_tuple :
      (xs : List (Tuple T)) (l : L) (r : R)
      → cl.left [] l
      → cr.left xs r
      → length xs ≤ length rights
      → RightKeys xs
      → (current : Option (Tuple T)) × (r' : R) × (on_right.next r ≡ ok (current, r'))
        × Left
            (matches ops same eq on_left on_right left_expr right_expr left_key right_key lefts xs)
            (open_at l r' current 0)
  first_tuple [] l r b a short k =
      let (r', ran, a') = cr.ends r a in (none, r', ran, (l, r', b, inl (refl, refl, a')))
  first_tuple (x ∷ xs) l r b a short k =
      let (r', ran, a') = cr.yields x xs r a in
      (
        some x,
        r',
        ran,
        (
          l,
          r',
          b,
          inr (
            x,
            partners ops same eq on_left on_right left_expr right_expr left_key right_key lefts x,
            xs,
            0,
            refl,
            omega (arith, short),
            a',
            k,
            ([], refl, refl),
            refl,
          ),
        ),
      )

  close_parts :
      (xs : List (Tuple T)) (l : L) (r : R) (current : Option (Tuple T)) (idx : ℕ)
      → cl.left [] l
      → cr.left xs r
      → (j' : HashEqJoin T L R) × (close ops same on_left on_right (open_at l r current idx)
          ≡ ok j')
  unfolding close
  close_parts xs l r current idx b a =
      let (l', ran) = cl.closes [] l b in
      let (r', ran') = cr.closes xs r a in
      (
        record {
          left_expr = left_expr;
          right_expr = right_expr;
          left_child = l';
          right_child = r';
          is_open = false;
          join_map = [];
          current_tuple = none;
          current_idx = 0;
        },
        rw (ran, ran') refl,
      )

  close_join :
      (ys : List (Tuple T)) (j : HashEqJoin T L R)
      → Left ys j
      → (j' : HashEqJoin T L R) × (close ops same on_left on_right j ≡ ok j')
  close_join ys j (l, r, b, inl (here, e, a)) =
      let (j', ran) = close_parts [] l r none 0 b a in (j', rw here ran)
  close_join ys j (l, r, b, inr (t, todo, rs, idx, here, short, a, k, at, e)) =
      let (j', ran) = close_parts rs l r (some t) idx b a in (j', rw here ran)

  -- Over children that, read once, give `lefts` and `rights`, with expressions that have a key for
  -- each tuple, an equality test of keys that is right, and more rounds than there are tuples on
  -- the left and one more than on the right: `HashEqJoin`, read once, gives for each tuple of
  -- `rights`, in order, the tuples of `lefts` with the same key, in order, merged with it.
  pub hash_join-IsPass :
      HasKey ops same eq on_left on_right left_expr right_expr left_key right_key left_expr left_key
        lefts
      → RightKeys rights
      → IsPass
          (hash_join ops same on_left on_right fuel)
          (new left_expr right_expr first_left first_right)
          (matches ops same eq on_left on_right left_expr right_expr left_key right_key lefts
            rights)
  unfolding new configure open_op close
  hash_join-IsPass kl kr = record {
    left = Left;
    opens =
        let (l₁, ran₁, b₁) = cl.opens in
        let (l₂, ran₂, b₂) =
          fold_child_lem on_left (add_tuple ops same on_left on_right left_expr) first_left lefts cl
            fuel lefts []
            (build ops same eq on_left on_right left_expr right_expr left_key right_key [] lefts) l₁
            enough_left b₁
            (read_left ops same eq on_left on_right left_expr right_expr left_key right_key lefts []
              kl) in
        let (r₁, ran₃, a₁) = cr.opens in
        let (current, r₂, ran₄, more) = first_tuple rights l₂ r₁ b₂ a₁ (omega arith) kr in
        (open_at l₂ r₂ current 0, rw (ran₁, ran₂, ran₃, ran₄) refl, more);
    yields = yield_match;
    ends = end_matches;
    closes = close_join;
  }
