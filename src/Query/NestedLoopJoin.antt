-- ===== src/Query/NestedLoopJoin.antt =====
-- src/queryexe/src/opiterator/nested_loop_join.rs, and `compare_fields` of
-- src/common/src/datatypes.rs.
use crusty_db.Prelude.{ℕ, zero, suc, Bool, true, false, not, Option, none, some, if◌then◌else◌}
use crusty_db.Expr.{BinaryOp, op_eq, op_neq, op_lt, op_gt, op_le, op_ge, op_and, op_or}
use crusty_db.Expr.Bytecode.{Operators, ByteCodeExpr, eval}
use crusty_db.Query.{
  Outcome, ok, panicked, ◌>>=◌, ◌>>◌, unwrap, check_open, Tuple, merge, OpIterator,
}

pub record NestedLoopJoin (T L R : Type 0) : Type 0 where
  pub op : BinaryOp
  pub left_expr : ByteCodeExpr T
  pub right_expr : ByteCodeExpr T
  pub left_child : L
  pub right_child : R
  pub is_open : Bool
  pub current_tuple : Option (Tuple T)

unfoldable pub new :
    {T L R : Type 0} → BinaryOp → ByteCodeExpr T → ByteCodeExpr T → L → R → NestedLoopJoin T L R
new op left_expr right_expr left right = record {
  op = op;
  left_expr = left_expr;
  right_expr = right_expr;
  left_child = left;
  right_child = right;
  is_open = false;
  current_tuple = none;
}

-- `as_bool` is `unwrap_bool_field`, which panics on a field that is not a `Bool`.
module _ {T : Type 0} (ops : Operators T) (as_bool : T → Option Bool) where
  unfoldable pub compare_fields : BinaryOp → T → T → Outcome Bool
  compare_fields op_eq l r = ok (ops.eq l r)
  compare_fields op_neq l r = ok (not (ops.eq l r))
  compare_fields op_gt l r = ok (ops.gt l r)
  compare_fields op_ge l r = ok (ops.ge l r)
  compare_fields op_lt l r = ok (ops.lt l r)
  compare_fields op_le l r = ok (ops.le l r)
  compare_fields op_and l r = unwrap (ops.both l r) >>= λ v. unwrap (as_bool v)
  compare_fields op_or l r = unwrap (ops.either l r) >>= λ v. unwrap (as_bool v)
  compare_fields _ l r = panicked

  -- The test of the loop of `next` on two tuples.
  unfoldable pub test :
      BinaryOp → ByteCodeExpr T → ByteCodeExpr T → Tuple T → Tuple T → Outcome Bool
  unfolding compare_fields
  test op left_expr right_expr left_tuple right_tuple = do
    left_val ← unwrap (eval ops left_expr left_tuple.field_vals)
    right_val ← unwrap (eval ops right_expr right_tuple.field_vals)
    compare_fields op left_val right_val

  module _ {L R : Type 0} (on_left : OpIterator T L) (on_right : OpIterator T R) where
    -- The loop of `next`, on fuel, of which each round takes one; running out of it counts as a
    -- panic.
    unfoldable pub next_match :
        ℕ → NestedLoopJoin T L R → Outcome (Option (Tuple T) × NestedLoopJoin T L R)
    unfolding test
    next_match zero j = panicked
    next_match (suc fuel) j = elim j.current_tuple [
      | none ↦ ok (none, j)
      | some left_tuple ↦ do
        (item, r) ← on_right.next j.right_child
        let skip = next_match fuel (record j { right_child = r })
        elim item [
          | some right_tuple ↦ do
            b ← test j.op j.left_expr j.right_expr left_tuple right_tuple
            if b
                then ok (some (merge left_tuple right_tuple), record j { right_child = r })
                else skip
          | none ↦ do
            r' ← on_right.rewind r
            (current, l) ← on_left.next j.left_child
            next_match fuel (record j { left_child = l; right_child = r'; current_tuple = current })
        ]
    ]

    unfoldable pub configure : Bool → NestedLoopJoin T L R → NestedLoopJoin T L R
    configure will_rewind j = record j {
      left_child = on_left.configure will_rewind j.left_child;
      right_child = on_right.configure true j.right_child;
    }

    unfoldable pub open_op : NestedLoopJoin T L R → Outcome (NestedLoopJoin T L R)
    open_op j = if j.is_open then ok j else do
      l ← on_left.open_op j.left_child
      r ← on_right.open_op j.right_child
      (current, l') ← on_left.next l
      ok (record j { left_child = l'; right_child = r; is_open = true; current_tuple = current })

    unfoldable pub next :
        ℕ → NestedLoopJoin T L R → Outcome (Option (Tuple T) × NestedLoopJoin T L R)
    unfolding next_match
    next fuel j = do check_open j.is_open; next_match fuel j

    unfoldable pub close : NestedLoopJoin T L R → Outcome (NestedLoopJoin T L R)
    close j = do
      l ← on_left.close j.left_child
      r ← on_right.close j.right_child
      ok (record j { left_child = l; right_child = r; is_open = false })

    unfoldable pub rewind : NestedLoopJoin T L R → Outcome (NestedLoopJoin T L R)
    rewind j = do
      check_open j.is_open
      l ← on_left.rewind j.left_child
      r ← on_right.rewind j.right_child
      (current, l') ← on_left.next l
      ok (record j { left_child = l'; right_child = r; current_tuple = current })

    abbrev pub nested_loop_join : ℕ → OpIterator T (NestedLoopJoin T L R)
    nested_loop_join fuel = record {
      configure = configure;
      open_op = open_op;
      next = next fuel;
      close = close;
      rewind = rewind;
    }
