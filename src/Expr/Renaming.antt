-- ===== src/Expr/Renaming.antt =====
-- Renaming the columns of an expression, and replacing them by expressions.
use crusty_db.Prelude.{ℕ, true, ◌≡◌, refl, ap₂, Option, none, some, OrPanic, ◌&&◌}
use crusty_db.Expr.{
  Expression, col_ref, field, binary, case_of, subquery, replace_variables,
  replace_variables_with_exprs,
}
use crusty_db.Expr.Bytecode.{Operators}
use crusty_db.Expr.Meaning.{meaning, renamed, is_supported}

module _ {T P : Type 0} where
  -- What `replace_variables` returns means what the expression means where each column has the
  -- value of the column that the map sends it to, or its own if it is not in the map.
  pub meaning-replace_variables :
      (ops : Operators T) (in_plan : (ℕ → Option ℕ) → P → P) (m : ℕ → Option ℕ)
      (env : ℕ → OrPanic T) (e : Expression T P)
      → meaning ops env (replace_variables in_plan m e) ≡ meaning ops (λ id. env (renamed m id)) e
  unfolding replace_variables
  meaning-replace_variables ops in_plan m env (col_ref id) = go (m id)
    where
      go :
          (o : Option ℕ)
          → meaning ops {P = P} env (elim o [ none ↦ col_ref id | some dest ↦ col_ref dest ])
            ≡ env (elim o [ none ↦ id | some dest ↦ dest ])
      go none = refl
      go (some dest) = refl
  meaning-replace_variables ops in_plan m env (field val) = refl
  meaning-replace_variables ops in_plan m env (binary op left right) =
      rw
        (
          meaning-replace_variables ops in_plan m env left,
          meaning-replace_variables ops in_plan m env right,
        )
        refl
  meaning-replace_variables ops in_plan m env (case_of e whens else_expr) = refl
  meaning-replace_variables ops in_plan m env (subquery plan) = refl

  pub is_supported-replace_variables :
      (in_plan : (ℕ → Option ℕ) → P → P) (m : ℕ → Option ℕ) (e : Expression T P)
      → is_supported (replace_variables in_plan m e) ≡ is_supported e
  unfolding replace_variables
  is_supported-replace_variables in_plan m (col_ref id) = go (m id)
    where
      go :
          (o : Option ℕ)
          → is_supported {T = T} {P = P} (elim o [ none ↦ col_ref id | some dest ↦ col_ref dest ])
            ≡ true
      go none = refl
      go (some dest) = refl
  is_supported-replace_variables in_plan m (field val) = refl
  is_supported-replace_variables in_plan m (binary op left right) =
      ap₂ (λ a b. a && b) (is_supported-replace_variables in_plan m left)
        (is_supported-replace_variables in_plan m right)
  is_supported-replace_variables in_plan m (case_of e whens else_expr) = refl
  is_supported-replace_variables in_plan m (subquery plan) = refl

  -- The value of a column after `replace_variables_with_exprs`: that of the expression in its
  -- place, or its own.
  abbrev pub replaced :
      Operators T → (ℕ → Option (Expression T P)) → (ℕ → OrPanic T) → ℕ → OrPanic T
  replaced ops m env id = elim (m id) [ none ↦ env id | some e ↦ meaning ops env e ]

  -- What `replace_variables_with_exprs` returns means what the expression means where each column
  -- has the value of the expression in its place, or its own if none replaces it.
  pub meaning-replace_variables_with_exprs :
      (ops : Operators T) (m : ℕ → Option (Expression T P)) (env : ℕ → OrPanic T)
      (e : Expression T P)
      → meaning ops env (replace_variables_with_exprs m e) ≡ meaning ops (replaced ops m env) e
  unfolding replace_variables_with_exprs
  meaning-replace_variables_with_exprs ops m env (col_ref id) = go (m id)
    where
      go :
          (o : Option (Expression T P))
          → meaning ops env (elim o [ none ↦ col_ref id | some e ↦ e ])
            ≡ elim o [ none ↦ env id | some e ↦ meaning ops env e ]
      go none = refl
      go (some e) = refl
  meaning-replace_variables_with_exprs ops m env (field val) = refl
  meaning-replace_variables_with_exprs ops m env (binary op left right) =
      rw
        (
          meaning-replace_variables_with_exprs ops m env left,
          meaning-replace_variables_with_exprs ops m env right,
        )
        refl
  meaning-replace_variables_with_exprs ops m env (case_of e whens else_expr) = refl
  meaning-replace_variables_with_exprs ops m env (subquery plan) = refl
