-- ===== src/Expr.antt =====
-- src/common/src/query/expr.rs and operation.rs: the expressions of a query. `T` is the type of
-- fields, `P` that of plans in subqueries.
pub mod Bytecode
pub mod Meaning
pub mod Renaming
pub mod Conjunctions
pub mod Machine
pub mod Compiling
use crusty_db.Prelude.{ℕ, Bool, true, false, ◌||◌, List, [], ◌∷◌, ◌++◌, Option, none, some, ◌==◌}

pub data BinaryOp : Type 0 where
  op_add op_sub op_mul op_div op_eq op_neq op_lt op_gt op_le op_ge op_and op_or : BinaryOp

mutual
  pub data Expression (T P : Type 0) : Type 0 where
    col_ref : ℕ → Expression T P
    field : T → Expression T P
    binary : BinaryOp → Expression T P → Expression T P → Expression T P
    case_of : Expression T P → Whens T P → Expression T P → Expression T P
    subquery : P → Expression T P

  -- The list of pairs of a `Case`.
  pub data Whens (T P : Type 0) : Type 0 where
    no_whens : Whens T P
    when_then : Expression T P → Expression T P → Whens T P → Whens T P

module _ {T P : Type 0} where
  unfoldable pub has_subquery : Expression T P → Bool
  has_subquery (binary op left right) = has_subquery left || has_subquery right
  has_subquery (subquery plan) = true
  has_subquery _ = false

  unfoldable pub split_conjunction : Expression T P → List (Expression T P)
  split_conjunction (binary op_and left right) = split_conjunction left ++ split_conjunction right
  split_conjunction e = e ∷ []

  -- `int_one` is the field `BigInt(1)`.
  unfoldable pub combine_preds : T → List (Expression T P) → Expression T P
  combine_preds int_one [] = binary op_eq (field int_one) (field int_one)
  combine_preds int_one (e ∷ []) = e
  combine_preds int_one (e ∷ es) = binary op_and e (combine_preds int_one es)

  -- `in_plan` is the plan's own `replace_variables`.
  unfoldable mutual
    pub replace_variables :
        ((ℕ → Option ℕ) → P → P) → (ℕ → Option ℕ) → Expression T P → Expression T P
    replace_variables in_plan m (col_ref id) = elim (m id) [
      | none ↦ col_ref id
      | some dest ↦ col_ref dest
    ]
    replace_variables in_plan m (field val) = field val
    replace_variables in_plan m (binary op left right) =
        binary op (replace_variables in_plan m left) (replace_variables in_plan m right)
    replace_variables in_plan m (case_of e whens else_expr) =
        case_of (replace_variables in_plan m e) (replace_whens in_plan m whens)
          (replace_variables in_plan m else_expr)
    replace_variables in_plan m (subquery plan) = subquery (in_plan m plan)

    pub replace_whens : ((ℕ → Option ℕ) → P → P) → (ℕ → Option ℕ) → Whens T P → Whens T P
    replace_whens in_plan m no_whens = no_whens
    replace_whens in_plan m (when_then w t rest) =
        when_then (replace_variables in_plan m w) (replace_variables in_plan m t)
          (replace_whens in_plan m rest)

  unfoldable mutual
    pub replace_variables_with_exprs :
        (ℕ → Option (Expression T P)) → Expression T P → Expression T P
    replace_variables_with_exprs m (col_ref id) = elim (m id) [ none ↦ col_ref id | some e ↦ e ]
    replace_variables_with_exprs m (field val) = field val
    replace_variables_with_exprs m (binary op left right) =
        binary op (replace_variables_with_exprs m left) (replace_variables_with_exprs m right)
    replace_variables_with_exprs m (case_of e whens else_expr) =
        case_of (replace_variables_with_exprs m e) (replace_whens_with_exprs m whens)
          (replace_variables_with_exprs m else_expr)
    replace_variables_with_exprs m (subquery plan) = subquery plan

    pub replace_whens_with_exprs : (ℕ → Option (Expression T P)) → Whens T P → Whens T P
    replace_whens_with_exprs m no_whens = no_whens
    replace_whens_with_exprs m (when_then w t rest) =
        when_then (replace_variables_with_exprs m w) (replace_variables_with_exprs m t)
          (replace_whens_with_exprs m rest)

  -- A `HashSet` of columns is its test for membership; `in_plan` is the plan's own `free`.
  unfoldable mutual
    pub free : (P → ℕ → Bool) → Expression T P → ℕ → Bool
    free in_plan (col_ref id) c = c == id
    free in_plan (field val) c = false
    free in_plan (binary op left right) c = free in_plan left c || free in_plan right c
    free in_plan (case_of e whens else_expr) c =
        free in_plan e c || free_whens in_plan whens c || free in_plan else_expr c
    free in_plan (subquery plan) c = in_plan plan c

    pub free_whens : (P → ℕ → Bool) → Whens T P → ℕ → Bool
    free_whens in_plan no_whens c = false
    free_whens in_plan (when_then w t rest) c =
        free in_plan w c || free in_plan t c || free_whens in_plan rest c
