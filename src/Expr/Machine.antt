-- ===== src/Expr/Machine.antt =====
-- bytecode_expr.rs: how code is added, and what one round of the machine's loop does.
use crusty_db.Prelude.{
  ℕ, suc, ◌+◌, ◌≡◌, refl, List, [], ◌∷◌, none, some, lt→ltb, length, length-append, get-append,
  get-length, get-lt, get_elem?, OrPanic, ◌>>=◌, inl, inr, Option-cases,
}
use crusty_db.Expr.{
  BinaryOp, op_add, op_sub, op_mul, op_div, op_eq, op_neq, op_lt, op_gt, op_le, op_ge, op_and,
  op_or,
}
use crusty_db.Expr.Bytecode.{
  Operators, ByteCodeExpr, as_usize, push_lit, push_field, push_from, pop_two, static_dispatcher,
  run_from, code_of, add_code, add_literal,
}
use crusty_db.Expr.Meaning.{apply_op}

module _ {T : Type 0} where
  -- The codes and the literals of `b` stand at the start of those of `c`.
  pub record Extends (b c : ByteCodeExpr T) : Type 0 where
    pub codes : (i v : ℕ) → get_elem? b.bytecodes i ≡ some v → get_elem? c.bytecodes i ≡ some v
    pub lits : (i : ℕ) (v : T) → get_elem? b.literals i ≡ some v → get_elem? c.literals i ≡ some v

  pub Extends-trans : (a b c : ByteCodeExpr T) → Extends a b → Extends b c → Extends a c
  Extends-trans a b c p q = record {
    codes = λ i v h. q.codes i v (p.codes i v h);
    lits = λ i v h. q.lits i v (p.lits i v h);
  }

  pub Extends-add_code : (b : ByteCodeExpr T) (k : ℕ) → Extends b (add_code b k)
  unfolding add_code
  Extends-add_code b k = record {
    codes = λ i v h. get-append b.bytecodes (k ∷ []) i v h;
    lits = λ i v h. h;
  }

  pub Extends-add_literal : (b : ByteCodeExpr T) (x : T) → Extends b (add_literal b x).1
  unfolding add_literal
  Extends-add_literal b x = record {
    codes = λ i v h. h;
    lits = λ i v h. get-append b.literals (x ∷ []) i v h;
  }

  pub code_added :
      (b c : ByteCodeExpr T) (k : ℕ)
      → Extends (add_code b k) c
      → get_elem? c.bytecodes (length b.bytecodes) ≡ some k
  unfolding add_code
  code_added b c k x = x.codes (length b.bytecodes) k (get-length b.bytecodes k)

  pub length-add_code :
      (b : ByteCodeExpr T) (k : ℕ) → length (add_code b k).bytecodes ≡ length b.bytecodes + 1
  unfolding add_code
  length-add_code b k = length-append b.bytecodes (k ∷ [])

module _ {T : Type 0} (ops : Operators T) (fields : List T) (c : ByteCodeExpr T) where
  abbrev pub go : ℕ → ℕ → List T → OrPanic (List T)
  go f i stack = run_from ops c fields f i stack

  -- One round of the loop, for a code that pushes and for one of an operator.
  pub round_lit :
      (i k g : ℕ) (stack : List T)
      → get_elem? c.bytecodes i ≡ some (as_usize push_lit)
      → get_elem? c.bytecodes (i + 1) ≡ some k
      → go (suc g) i stack ≡ (get_elem? c.literals k >>= λ v. go g (i + 1 + 1) (v ∷ stack))
  unfolding run_from as_usize push_from
  round_lit i k g stack h h' =
      rw (lt→ltb i (length c.bytecodes) (get-lt c.bytecodes i 0 h), h, h')
        (elim (Option-cases (get_elem? c.literals k)) [
          | inl e ↦ rw e refl
          | inr (v, e) ↦ rw e refl
        ])

  pub round_field :
      (i k g : ℕ) (stack : List T)
      → get_elem? c.bytecodes i ≡ some (as_usize push_field)
      → get_elem? c.bytecodes (i + 1) ≡ some k
      → go (suc g) i stack ≡ (get_elem? fields k >>= λ v. go g (i + 1 + 1) (v ∷ stack))
  unfolding run_from as_usize push_from
  round_field i k g stack h h' =
      rw (lt→ltb i (length c.bytecodes) (get-lt c.bytecodes i 1 h), h, h')
        (elim (Option-cases (get_elem? fields k)) [ inl e ↦ rw e refl | inr (v, e) ↦ rw e refl ])

  bind_value :
      (x : OrPanic T) (i : ℕ) (stack : List T) (k : ℕ × List T → OrPanic (List T))
      → ((x >>= λ v. some (i + 1, v ∷ stack)) >>= k) ≡ (x >>= λ v. k (i + 1, v ∷ stack))
  bind_value none i stack k = refl
  bind_value (some v) i stack k = refl

  pub round_op :
      (op : BinaryOp) (i g : ℕ) (l r : T) (stack : List T)
      → get_elem? c.bytecodes i ≡ some (as_usize (code_of op))
      → go (suc g) i (r ∷ l ∷ stack) ≡ (apply_op ops op l r >>= λ v. go g (i + 1) (v ∷ stack))
  unfolding run_from as_usize code_of pop_two
  round_op op i g l r stack h =
      rw (lt→ltb i (length c.bytecodes) (get-lt c.bytecodes i (as_usize (code_of op)) h), h)
        (by_op op)
    where
      by_op :
          (o : BinaryOp)
          → (get_elem? (static_dispatcher ops c.literals fields) (as_usize (code_of o)) >>= λ f.
              f c.bytecodes (i + 1) (r ∷ l ∷ stack) >>= λ p. go g p.0 p.1)
            ≡ (apply_op ops o l r >>= λ v. go g (i + 1) (v ∷ stack))
      by_op op_add = bind_value (ops.add l r) i stack (λ p. go g p.0 p.1)
      by_op op_sub = bind_value (ops.sub l r) i stack (λ p. go g p.0 p.1)
      by_op op_mul = bind_value (ops.mul l r) i stack (λ p. go g p.0 p.1)
      by_op op_div = bind_value (ops.div l r) i stack (λ p. go g p.0 p.1)
      by_op op_eq = refl
      by_op op_neq = refl
      by_op op_lt = refl
      by_op op_gt = refl
      by_op op_le = refl
      by_op op_ge = refl
      by_op op_and = bind_value (ops.both l r) i stack (λ p. go g p.0 p.1)
      by_op op_or = bind_value (ops.either l r) i stack (λ p. go g p.0 p.1)
