-- ===== src/Expr/Compiling.antt =====
-- planner.rs, `convert_expr_to_bytecode`: the machine runs its code to the meaning of the
-- expression.
use mathlib.Core.Path.{fun_ext}
use crusty_db.Prelude.{
  ℕ, zero, suc, ◌+◌, ◌-◌, ◌≤◌, ◌≡◌, refl, ◌∙◌, ap, true, false, Bool-cases, List, [], ◌∷◌, Option,
  none, some, lt→ltb, ltb-false, length, get-length, get_elem?, OrPanic, ◌>>=◌, arith, inl, inr,
  Option-cases,
}
use crusty_db.Expr.{
  BinaryOp, Expression, col_ref, field, binary, case_of, subquery, replace_variables,
}
use crusty_db.Expr.Bytecode.{
  Operators, ByteCodeExpr, as_usize, push_lit, push_field, run_from, eval, code_of, convert_inner,
  convert_expr_to_bytecode, new, add_code, add_literal,
}
use crusty_db.Expr.Meaning.{apply_op, meaning, is_supported, renamed_by}
use crusty_db.Expr.Renaming.{meaning-replace_variables, is_supported-replace_variables}
use crusty_db.Expr.Machine.{
  Extends, Extends-trans, Extends-add_code, Extends-add_literal, code_added, length-add_code, go,
  round_lit, round_field, round_op,
}

one_round : (f g : ℕ) → f ≡ 1 + g → f ≡ suc g
one_round f g e = omega (arith, e)

module _ {T : Type 0} where
  bind_assoc :
      (x y : OrPanic T) (o : T → T → OrPanic T) (k : T → OrPanic (List T))
      → (x >>= λ l. y >>= λ r. o l r >>= k) ≡ ((x >>= λ l. y >>= λ r. o l r) >>= k)
  bind_assoc none y o k = refl
  bind_assoc (some l) none o k = refl
  bind_assoc (some l) (some r) o k = refl

module _ {T : Type 0} (P : Type 0) (ops : Operators T) where
  -- The code of `e`, added to `b`, exists, and running it takes `n` rounds and pushes the
  -- meaning of `e`.
  abbrev Compiled : Expression T P → ByteCodeExpr T → Type 0
  Compiled e b =
      (b' : ByteCodeExpr T) × (n : ℕ) × (convert_inner e b ≡ some b')
      × Extends b b'
      × (length b.bytecodes + n ≤ length b'.bytecodes)
      × (1 ≤ n)
      × ((c : ByteCodeExpr T) (fields : List T)
          → Extends b' c
          → (f g : ℕ) (stack : List T) → f ≡ n + g
          → go ops fields c f (length b.bytecodes) stack ≡ (
              meaning ops (get_elem? fields) e >>= λ v.
              go ops fields c g (length b'.bytecodes) (v ∷ stack)))

  literal_code : (x : T) (b : ByteCodeExpr T) → Compiled (field x) b
  unfolding convert_inner add_literal
  literal_code x b =
      let k : ℕ = length b.literals in
      let b₁ : ByteCodeExpr T = (add_literal b x).1 in
      let b₂ = add_code b₁ (as_usize push_lit) in
      let b₃ = add_code b₂ k in
      let len₂ = length-add_code b₁ (as_usize push_lit) in
      let len₃ = length-add_code b₂ k in
      let ext₂ =
        Extends-trans b b₁ b₂ (Extends-add_literal b x) (Extends-add_code b₁ (as_usize push_lit)) in
      (
        b₃,
        1,
        refl,
        Extends-trans b b₂ b₃ ext₂ (Extends-add_code b₂ k),
        omega (arith, len₂, len₃),
        omega arith,
        λ c fields ext f g stack e.
            let at =
              code_added b₁ c (as_usize push_lit)
                (Extends-trans b₂ b₃ c (Extends-add_code b₂ k) ext) in
            let operand = code_added b₂ c k ext in
            let lit : get_elem? c.literals k ≡ some x = ext.lits k x (get-length b.literals x) in
            rw
              (
                one_round f g e,
                round_lit ops fields c (length b.bytecodes) k g stack at (rw len₂ at operand),
                lit,
                len₃,
                len₂,
              )
              refl,
      )

  column_code : (id : ℕ) (b : ByteCodeExpr T) → Compiled (col_ref id) b
  unfolding convert_inner
  column_code id b =
      let b₂ = add_code b (as_usize push_field) in
      let b₃ = add_code b₂ id in
      let len₂ = length-add_code b (as_usize push_field) in
      let len₃ = length-add_code b₂ id in
      (
        b₃,
        1,
        refl,
        Extends-trans b b₂ b₃ (Extends-add_code b (as_usize push_field)) (Extends-add_code b₂ id),
        omega (arith, len₂, len₃),
        omega arith,
        λ c fields ext f g stack e.
            let at =
              code_added b c (as_usize push_field)
                (Extends-trans b₂ b₃ c (Extends-add_code b₂ id) ext) in
            let operand = code_added b₂ c id ext in
            rw
              (
                one_round f g e,
                round_field ops fields c (length b.bytecodes) id g stack at (rw len₂ at operand),
                len₃,
                len₂,
              )
              refl,
      )

  binary_code :
      (op : BinaryOp) (left right : Expression T P) (b : ByteCodeExpr T)
      → Compiled left b
      → ((b₁ : ByteCodeExpr T) → Compiled right b₁)
      → Compiled (binary op left right) b
  unfolding convert_inner
  binary_code op left right b l r =
      let (b₁, n₁, conv₁, ext₁, size₁, pos₁, runs₁) = l in
      let (b₂, n₂, conv₂, ext₂, size₂, pos₂, runs₂) = r b₁ in
      let k = as_usize (code_of op) in
      let b₃ = add_code b₂ k in
      let len₃ = length-add_code b₂ k in
      (
        b₃,
        n₁ + (n₂ + 1),
        rw (conv₁, conv₂) refl,
        Extends-trans b b₁ b₃ ext₁ (Extends-trans b₁ b₂ b₃ ext₂ (Extends-add_code b₂ k)),
        omega (arith, len₃, size₁, size₂),
        omega (arith, pos₁),
        λ c fields ext f g stack e.
            let at = code_added b₂ c k ext in
            let ext₂c = Extends-trans b₂ b₃ c (Extends-add_code b₂ k) ext in
            let ext₁c = Extends-trans b₁ b₂ c ext₂ ext₂c in
            let env = get_elem? fields in
            runs₁ c fields ext₁c f (n₂ + (1 + g)) stack (omega (arith, e))
            ∙ ap (λ h. meaning ops env left >>= h)
                (fun_ext (λ x.
                  runs₂ c fields ext₂c (n₂ + (1 + g)) (1 + g) (x ∷ stack) refl
                  ∙ ap (λ h. meaning ops env right >>= h)
                      (fun_ext (λ y.
                        rw
                          (
                            one_round (1 + g) g refl,
                            round_op ops fields c op (length b₂.bytecodes) g x y stack at,
                            len₃,
                          )
                          refl))))
            ∙ bind_assoc (meaning ops env left) (meaning ops env right) (apply_op ops op)
                (λ v. go ops fields c g (length b₃.bytecodes) (v ∷ stack)),
      )

  compiled : (e : Expression T P) (b : ByteCodeExpr T) → is_supported e ≡ true → Compiled e b
  compiled (col_ref id) b h = column_code id b
  compiled (field x) b h = literal_code x b
  compiled (binary op left right) b h =
      binary_code op left right b (compiled left b (ground (arith, h)))
        (λ b₁. compiled right b₁ (ground (arith, h)))
  compiled (case_of e whens else_expr) b h = absurd cc
  compiled (subquery plan) b h = absurd cc

  unsupported :
      (e : Expression T P) (b : ByteCodeExpr T) → is_supported e ≡ false → convert_inner e b ≡ none
  unfolding convert_inner
  unsupported (col_ref id) b h = absurd cc
  unsupported (field x) b h = absurd cc
  unsupported (binary op left right) b h = elim (Bool-cases (is_supported left)) [
    | inl yes_left ↦
        let (b₁, n₁, conv₁, ext₁, size₁, pos₁, runs₁) = compiled left b yes_left in
        rw (conv₁, unsupported right b₁ (ground (arith, h, yes_left))) refl
    | inr no_left ↦ rw (unsupported left b no_left) refl
  ]
  unsupported (case_of e whens else_expr) b h = refl
  unsupported (subquery plan) b h = refl

  at_end :
      (c : ByteCodeExpr T) (fields : List T) (g : ℕ) (stack : List T)
      → go ops fields c g (length c.bytecodes) stack ≡ some stack
  unfolding run_from
  at_end c fields zero stack =
      rw (ltb-false (length c.bytecodes) (length c.bytecodes) (omega arith)) refl
  at_end c fields (suc g) stack =
      rw (ltb-false (length c.bytecodes) (length c.bytecodes) (omega arith)) refl

  eval_compiled :
      (e : Expression T P)
      → is_supported e ≡ true
      → (code : ByteCodeExpr T) × (convert_inner e new ≡ some code)
        × ((fields : List T) → eval ops code fields ≡ meaning ops (get_elem? fields) e)
  unfolding eval new
  eval_compiled e h =
      let (code, n, conv, ext, size, pos, runs) = compiled e new h in
      let len : ℕ = length code.bytecodes in
      let itself : Extends code code = record { codes = λ i v p. p; lits = λ i v p. p } in
      (
        code,
        conv,
        λ fields.
            rw
              (
                lt→ltb 0 len (omega (arith, size, pos)),
                runs code fields itself len (len - n) [] (omega (arith, size)),
              )
              (elim (Option-cases (meaning ops (get_elem? fields) e)) [
                | inl none_e ↦ rw none_e refl
                | inr (v, some_e) ↦ rw (some_e, at_end code fields (len - n) (v ∷ [])) refl
              ]),
      )

-- `convert_expr_to_bytecode` returns an error for an expression that contains a `Case` or a
-- subquery. For any other it returns code, and `eval` of that code on a record gives the meaning
-- of the expression, or panics where it has none, with the columns renamed by the map, if one is
-- given, and read from the record.
pub convert-meaning :
    {T P : Type 0} (ops : Operators T) (in_plan : (ℕ → Option ℕ) → P → P) (e : Expression T P)
    (m : Option (ℕ → Option ℕ))
    → (is_supported e ≡ false → convert_expr_to_bytecode {T = T} in_plan e m ≡ none)
      × (is_supported e ≡ true
          → (code : ByteCodeExpr T) × (convert_expr_to_bytecode in_plan e m ≡ some code)
            × ((fields : List T)
                → eval ops code fields ≡ meaning ops (λ id. get_elem? fields (renamed_by m id)) e))
unfolding convert_expr_to_bytecode
convert-meaning {T} {P} ops in_plan e none = (unsupported P ops e new, eval_compiled P ops e)
convert-meaning {T} {P} ops in_plan e (some m) =
    let r = replace_variables in_plan m e in
    let s = is_supported-replace_variables in_plan m e in
    (
      λ h. unsupported P ops r new (s ∙ h),
      λ h.
          let (code, conv, runs) = eval_compiled P ops r (s ∙ h) in
          (
            code,
            conv,
            λ fields. runs fields ∙ meaning-replace_variables ops in_plan m (get_elem? fields) e,
          ),
    )
