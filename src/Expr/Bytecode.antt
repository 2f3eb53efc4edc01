-- ===== src/Expr/Bytecode.antt =====
-- src/common/src/query/bytecode_expr.rs: the stack machine, generic in the type of values as its
-- functions are; and src/queryexe/src/query/planner.rs: the compiler to its code.
use crusty_db.Prelude.{
  ℕ, zero, suc, ◌+◌, Bool, not, List, [], ◌∷◌, ◌++◌, Option, none, some, ltb, if◌then◌else◌, length,
  get_elem?, OrPanic, ◌>>=◌, ◌>>◌, check,
}
use crusty_db.Expr.{
  BinaryOp, op_add, op_sub, op_mul, op_div, op_eq, op_neq, op_lt, op_gt, op_le, op_ge, op_and,
  op_or, Expression, col_ref, field, binary, replace_variables,
}

-- What the machine takes from its values: the traits `Add`, `Sub`, `Mul`, `Div` (whose error the
-- machine unwraps, so that it is a panic), `PartialEq`, `PartialOrd`, `FromBool`, `And`, `Or`.
pub record Operators (T : Type 0) : Type 0 where
  pub add : T → T → OrPanic T
  pub sub : T → T → OrPanic T
  pub mul : T → T → OrPanic T
  pub div : T → T → OrPanic T
  pub eq : T → T → Bool
  pub lt : T → T → Bool
  pub gt : T → T → Bool
  pub le : T → T → Bool
  pub ge : T → T → Bool
  pub from_bool : Bool → T
  pub both : T → T → OrPanic T
  pub either : T → T → OrPanic T

pub data ByteCodes : Type 0 where
  push_lit push_field add sub mul div eq neq lt gt lte gte both either : ByteCodes

-- `code as usize`: the place of the code in the enumeration.
unfoldable pub as_usize : ByteCodes → ℕ
as_usize push_lit = 0
as_usize push_field = 1
as_usize add = 2
as_usize sub = 3
as_usize mul = 4
as_usize div = 5
as_usize eq = 6
as_usize neq = 7
as_usize lt = 8
as_usize gt = 9
as_usize lte = 10
as_usize gte = 11
as_usize both = 12
as_usize either = 13

pub record ByteCodeExpr (T : Type 0) : Type 0 where
  pub bytecodes : List ℕ
  pub literals : List T

module _ {T : Type 0} where
  unfoldable pub new : ByteCodeExpr T
  new = record { bytecodes = []; literals = [] }

  unfoldable pub add_code : ByteCodeExpr T → ℕ → ByteCodeExpr T
  add_code b code = record b { bytecodes = b.bytecodes ++ (code ∷ []) }

  -- The literal's index, and the expression with the literal.
  unfoldable pub add_literal : ByteCodeExpr T → T → ℕ × ByteCodeExpr T
  add_literal b literal = (length b.literals, record b { literals = b.literals ++ (literal ∷ []) })

  unfoldable pub colidx_expr : ℕ → ByteCodeExpr T
  unfolding new add_code
  colidx_expr colidx = add_code (add_code new (as_usize push_field)) colidx

  -- The operand at `i` names an entry of `values`, which is pushed. The stack's top is the list's
  -- head; the result is the new `i` and the new stack.
  unfoldable pub push_from : List T → List ℕ → ℕ → List T → OrPanic (ℕ × List T)
  push_from values bytecodes i stack = do
    k ← get_elem? bytecodes i
    v ← get_elem? values k
    some (i + 1, v ∷ stack)

  -- A function of two values on top of the stack, the right one popped first.
  unfoldable pub pop_two : (T → T → OrPanic T) → ℕ → List T → OrPanic (ℕ × List T)
  pop_two f i (r ∷ l ∷ stack) = do v ← f l r; some (i, v ∷ stack)
  pop_two f i _ = none

  module _ (ops : Operators T) where
    -- `STATIC_DISPATCHER`, in its order, with each entry's function.
    abbrev pub static_dispatcher :
        List T → List T → List (List ℕ → ℕ → List T → OrPanic (ℕ × List T))
    static_dispatcher literals record_fields =
        (λ codes i stack. push_from literals codes i stack)
        ∷ (λ codes i stack. push_from record_fields codes i stack)
        ∷ (λ codes i stack. pop_two ops.add i stack)
        ∷ (λ codes i stack. pop_two ops.sub i stack)
        ∷ (λ codes i stack. pop_two ops.mul i stack)
        ∷ (λ codes i stack. pop_two ops.div i stack)
        ∷ (λ codes i stack. pop_two (λ l r. some (ops.from_bool (ops.eq l r))) i stack)
        ∷ (λ codes i stack. pop_two (λ l r. some (ops.from_bool (not (ops.eq l r)))) i stack)
        ∷ (λ codes i stack. pop_two (λ l r. some (ops.from_bool (ops.lt l r))) i stack)
        ∷ (λ codes i stack. pop_two (λ l r. some (ops.from_bool (ops.gt l r))) i stack)
        ∷ (λ codes i stack. pop_two (λ l r. some (ops.from_bool (ops.le l r))) i stack)
        ∷ (λ codes i stack. pop_two (λ l r. some (ops.from_bool (ops.ge l r))) i stack)
        ∷ (λ codes i stack. pop_two ops.both i stack)
        ∷ (λ codes i stack. pop_two ops.either i stack)
        ∷ []

    -- The loop of `eval` from `i` on, on fuel, which each round takes one of; running out of it
    -- counts as a panic.
    unfoldable pub run_from : ByteCodeExpr T → List T → ℕ → ℕ → List T → OrPanic (List T)
    unfolding push_from pop_two
    run_from b record_fields zero i stack = if ltb i (length b.bytecodes) then none else some stack
    run_from b record_fields (suc fuel) i stack =
        if ltb i (length b.bytecodes)
        then (do
          opcode ← get_elem? b.bytecodes i
          f ← get_elem? (static_dispatcher b.literals record_fields) opcode
          (i', stack') ← f b.bytecodes (i + 1) stack
          run_from b record_fields fuel i' stack')
        else some stack

    -- `eval`. Each round moves `i` on, so that as much fuel as there are codes is enough.
    unfoldable pub eval : ByteCodeExpr T → List T → OrPanic T
    eval b record_fields = do
      check (ltb 0 (length b.bytecodes))
      stack ← run_from b record_fields (length b.bytecodes) 0 []
      get_elem? stack 0

-- The code of an operator, in `convert_expr_to_bytecode_inner`.
unfoldable pub code_of : BinaryOp → ByteCodes
code_of op_add = add
code_of op_sub = sub
code_of op_mul = mul
code_of op_div = div
code_of op_eq = eq
code_of op_neq = neq
code_of op_gt = gt
code_of op_ge = gte
code_of op_lt = lt
code_of op_le = lte
code_of op_and = both
code_of op_or = either

module _ {T P : Type 0} where
  -- The result `none` is the error for an expression that is not supported.
  unfoldable pub convert_inner : Expression T P → ByteCodeExpr T → Option (ByteCodeExpr T)
  unfolding add_code add_literal code_of as_usize
  convert_inner (field val) b =
      let (i, b') = add_literal b val in some (add_code (add_code b' (as_usize push_lit)) i)
  convert_inner (binary op left right) b = do
    b₁ ← convert_inner left b
    b₂ ← convert_inner right b₁
    some (add_code b₂ (as_usize (code_of op)))
  convert_inner (col_ref id) b = some (add_code (add_code b (as_usize push_field)) id)
  convert_inner _ b = none

  unfoldable pub convert_expr_to_bytecode :
      ((ℕ → Option ℕ) → P → P) → Expression T P → Option (ℕ → Option ℕ) → Option (ByteCodeExpr T)
  convert_expr_to_bytecode in_plan e none = convert_inner e new
  convert_expr_to_bytecode in_plan e (some m) = convert_inner (replace_variables in_plan m e) new
