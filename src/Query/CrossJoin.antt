-- ===== src/Query/CrossJoin.antt =====
-- src/queryexe/src/opiterator/cross_join.rs.
use crusty_db.Prelude.{ℕ, zero, suc, Bool, true, false, Option, none, some, if◌then◌else◌}
use crusty_db.Query.{Outcome, ok, panicked, ◌>>=◌, ◌>>◌, check_open, Tuple, merge, OpIterator}

pub record CrossJoin (T L R : Type 0) : Type 0 where
  pub left_child : L
  pub right_child : R
  pub is_open : Bool
  pub current_tuple : Option (Tuple T)

unfoldable pub new : {T L R : Type 0} → L → R → CrossJoin T L R
new left right = record {
  left_child = left;
  right_child = right;
  is_open = false;
  current_tuple = none;
}

module _ {T L R : Type 0} (on_left : OpIterator T L) (on_right : OpIterator T R) where
  -- The loop of `next`, on fuel, of which each round takes one; running out of it counts as a
  -- panic.
  unfoldable pub next_pair : ℕ → CrossJoin T L R → Outcome (Option (Tuple T) × CrossJoin T L R)
  next_pair zero j = panicked
  next_pair (suc fuel) j = elim j.current_tuple [
    | none ↦ ok (none, j)
    | some left_tuple ↦ do
      (item, r) ← on_right.next j.right_child
      elim item [
        | some right_tuple ↦ ok (some (merge left_tuple right_tuple), record j { right_child = r })
        | none ↦ do
          r' ← on_right.rewind r
          (current, l) ← on_left.next j.left_child
          next_pair fuel (record j { left_child = l; right_child = r'; current_tuple = current })
      ]
  ]

  unfoldable pub configure : Bool → CrossJoin T L R → CrossJoin T L R
  configure will_rewind j = record j {
    left_child = on_left.configure will_rewind j.left_child;
    right_child = on_right.configure true j.right_child;
  }

  unfoldable pub open_op : CrossJoin T L R → Outcome (CrossJoin T L R)
  open_op j = if j.is_open then ok j else do
    l ← on_left.open_op j.left_child
    r ← on_right.open_op j.right_child
    (current, l') ← on_left.next l
    ok (record { left_child = l'; right_child = r; is_open = true; current_tuple = current })

  unfoldable pub next : ℕ → CrossJoin T L R → Outcome (Option (Tuple T) × CrossJoin T L R)
  unfolding next_pair
  next fuel j = do check_open j.is_open; next_pair fuel j

  unfoldable pub close : CrossJoin T L R → Outcome (CrossJoin T L R)
  close j = do
    l ← on_left.close j.left_child
    r ← on_right.close j.right_child
    ok (record j { left_child = l; right_child = r; is_open = false })

  unfoldable pub rewind : CrossJoin T L R → Outcome (CrossJoin T L R)
  rewind j = do
    l ← on_left.rewind j.left_child
    r ← on_right.rewind j.right_child
    (current, l') ← on_left.next l
    ok (record j { left_child = l'; right_child = r; current_tuple = current })

  abbrev pub cross_join : ℕ → OpIterator T (CrossJoin T L R)
  cross_join fuel = record {
    configure = configure;
    open_op = open_op;
    next = next fuel;
    close = close;
    rewind = rewind;
  }
