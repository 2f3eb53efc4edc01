-- ===== src/Tests/Expressions.antt =====
-- Expressions on concrete records, with numbers for fields.
use crusty_db.Prelude.{
  ℕ, ◌+◌, ◌-◌, ◌*◌, ◌/◌, ◌≡◌, true, false, List, [], ◌∷◌, Option, none, some, OrPanic, ltb, leb,
  ◌==◌, if◌then◌else◌, get_elem?, arith, ◌||◌,
}
use crusty_db.Expr.{
  Expression, op_add, op_lt, op_and, col_ref, field, binary, split_conjunction, combine_preds,
}
use crusty_db.Expr.Bytecode.{Operators, ByteCodeExpr, eval, convert_expr_to_bytecode}
use crusty_db.Expr.Meaning.{meaning, is_supported, renamed_by}
use crusty_db.Expr.Conjunctions.{IsAssociative, combine-split_conjunction}
use crusty_db.Expr.Compiling.{convert-meaning}

-- Numbers, with 0 and 1 for the Booleans; `and` panics on any other.
abbrev both_bits : ℕ → ℕ → OrPanic ℕ
both_bits a b = if ltb 1 a || ltb 1 b then none else some (a * b)

abbrev pub numbers : Operators ℕ
numbers = record {
  add = λ a b. some (a + b);
  sub = λ a b. if ltb a b then none else some (a - b);
  mul = λ a b. some (a * b);
  div = λ a b. if b == 0 then none else some (a / b);
  eq = λ a b. a == b;
  lt = λ a b. ltb a b;
  gt = λ a b. ltb b a;
  le = λ a b. leb a b;
  ge = λ a b. leb b a;
  from_bool = λ b. if b then 1 else 0;
  both = both_bits;
  either = λ a b. some (if a + b == 0 then 0 else 1);
}

-- `#0 + #1 < 9`.
abbrev small_sum : Expression ℕ (Unit {0})
small_sum = binary op_lt (binary op_add (col_ref 0) (col_ref 1)) (field 9)

abbrev same_plan : (ℕ → Option ℕ) → Unit {0} → Unit {0}
same_plan m plan = plan

-- Column 7 is column 1.
abbrev seven_to_one : ℕ → Option ℕ
seven_to_one id = if id == 7 then some 1 else none

convert-meaning_example :
    (is_supported small_sum ≡ false
      → convert_expr_to_bytecode {T = ℕ} same_plan small_sum (some seven_to_one) ≡ none)
    × (is_supported small_sum ≡ true
        → (code : ByteCodeExpr ℕ) × (convert_expr_to_bytecode same_plan small_sum
              (some seven_to_one)
            ≡ some code)
          × ((fields : List ℕ)
              → eval numbers code fields
                ≡ meaning numbers
                    (λ id. get_elem? fields (renamed_by (some seven_to_one) id))
                    small_sum))
convert-meaning_example = convert-meaning numbers same_plan small_sum (some seven_to_one)

abbrev columns : ℕ → OrPanic ℕ
columns c = get_elem? (3 ∷ 5 ∷ []) c

-- Column 1 is the sum of column 0 and 2.
both_bits-IsAssociative : IsAssociative both_bits
both_bits-IsAssociative a b c = ground arith

abbrev three_parts : Expression ℕ (Unit {0})
three_parts = binary op_and (binary op_and small_sum (field 1)) small_sum

combine-split_conjunction_example :
    meaning numbers columns (combine_preds 1 (split_conjunction three_parts))
    ≡ meaning numbers columns three_parts
combine-split_conjunction_example =
    combine-split_conjunction numbers 1 columns three_parts both_bits-IsAssociative
