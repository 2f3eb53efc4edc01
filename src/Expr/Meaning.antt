-- ===== src/Expr/Meaning.antt =====
-- What an expression means, by recursion on it, with no machine.
use crusty_db.Prelude.{
  ℕ, Bool, true, false, not, ◌&&◌, ◌≡◌, refl, Option, none, some, OrPanic, ◌>>=◌, arith,
}
use crusty_db.Expr.{
  BinaryOp, op_add, op_sub, op_mul, op_div, op_eq, op_neq, op_lt, op_gt, op_le, op_ge, op_and,
  op_or, Expression, col_ref, field, binary, case_of, subquery, free,
}
use crusty_db.Expr.Bytecode.{Operators}

-- The column that a map sends a column to; a column that is not in the map stays.
abbrev pub renamed : (ℕ → Option ℕ) → ℕ → ℕ
renamed src_to_dest id = elim (src_to_dest id) [ none ↦ id | some dest ↦ dest ]

-- The map of `convert_expr_to_bytecode`, which may be absent.
abbrev pub renamed_by : Option (ℕ → Option ℕ) → ℕ → ℕ
renamed_by none id = id
renamed_by (some m) id = renamed m id

module _ {T : Type 0} (ops : Operators T) where
  abbrev pub apply_op : BinaryOp → T → T → OrPanic T
  apply_op op_add l r = ops.add l r
  apply_op op_sub l r = ops.sub l r
  apply_op op_mul l r = ops.mul l r
  apply_op op_div l r = ops.div l r
  apply_op op_eq l r = some (ops.from_bool (ops.eq l r))
  apply_op op_neq l r = some (ops.from_bool (not (ops.eq l r)))
  apply_op op_lt l r = some (ops.from_bool (ops.lt l r))
  apply_op op_gt l r = some (ops.from_bool (ops.gt l r))
  apply_op op_le l r = some (ops.from_bool (ops.le l r))
  apply_op op_ge l r = some (ops.from_bool (ops.ge l r))
  apply_op op_and l r = ops.both l r
  apply_op op_or l r = ops.either l r

  -- The value under an assignment of values to columns. `Case` and subqueries, which the machine
  -- has no code for, have none.
  abbrev pub meaning : {P : Type 0} → (ℕ → OrPanic T) → Expression T P → OrPanic T
  meaning env (col_ref id) = env id
  meaning env (field val) = some val
  meaning env (binary op left right) =
      meaning env left >>= λ l. meaning env right >>= λ r. apply_op op l r
  meaning env _ = none

  -- Assignments that agree on the columns that `free` finds give an expression the same meaning.
  pub meaning-free :
      {P : Type 0} (in_plan : P → ℕ → Bool) (e : Expression T P) (env env' : ℕ → OrPanic T)
      → ((c : ℕ) → free in_plan e c ≡ true → env c ≡ env' c)
      → meaning env e ≡ meaning env' e
  unfolding free
  meaning-free in_plan (col_ref id) env env' h = h id (ground arith)
  meaning-free in_plan (field val) env env' h = refl
  meaning-free in_plan (binary op left right) env env' h =
      let l = meaning-free in_plan left env env' (λ c e. h c (rw e refl)) in
      let r = meaning-free in_plan right env env' (λ c e. h c (ground (arith, e))) in rw (l, r) refl
  meaning-free in_plan (case_of e whens else_expr) env env' h = refl
  meaning-free in_plan (subquery plan) env env' h = refl

-- The expressions that `convert_expr_to_bytecode` supports.
abbrev pub is_supported : {T P : Type 0} → Expression T P → Bool
is_supported (col_ref id) = true
is_supported (field val) = true
is_supported (binary op left right) = is_supported left && is_supported right
is_supported _ = false
