-- ===== src/Query/Project.antt =====
-- src/queryexe/src/opiterator/project.rs.
use crusty_db.Prelude.{Bool, true, false, Option, none, some, List, [], ◌∷◌, if◌then◌else◌}
use crusty_db.Expr.Bytecode.{Operators, ByteCodeExpr, eval}
use crusty_db.Query.{Outcome, ok, ◌>>=◌, ◌>>◌, unwrap, check_open, Tuple, new_tuple, OpIterator}

pub record Project (T S : Type 0) : Type 0 where
  pub fields : List (ByteCodeExpr T)
  pub child : S
  pub is_open : Bool

unfoldable pub new : {T S : Type 0} → List (ByteCodeExpr T) → S → Project T S
new fields child = record { fields = fields; child = child; is_open = false }

module _ {T S : Type 0} (ops : Operators T) (it : OpIterator T S) where
  -- The values of the fields' expressions on a tuple.
  unfoldable pub new_field_vals : List (ByteCodeExpr T) → Tuple T → Outcome (List T)
  new_field_vals [] tuple = ok []
  new_field_vals (expr ∷ exprs) tuple = do
    t ← unwrap (eval ops expr tuple.field_vals)
    ts ← new_field_vals exprs tuple
    ok (t ∷ ts)

  unfoldable pub configure : Bool → Project T S → Project T S
  configure will_rewind p = record p { child = it.configure will_rewind p.child }

  unfoldable pub open_op : Project T S → Outcome (Project T S)
  open_op p =
      if p.is_open
      then ok (record p { is_open = true })
      else it.open_op p.child >>= λ c. ok (record p { child = c; is_open = true })

  unfoldable pub next : Project T S → Outcome (Option (Tuple T) × Project T S)
  next p = do
    check_open p.is_open
    (item, c) ← it.next p.child
    elim item [
      | none ↦ ok (none, record p { child = c })
      | some tuple ↦ do
        vals ← new_field_vals p.fields tuple
        ok (some (new_tuple vals), record p { child = c })
    ]

  unfoldable pub close : Project T S → Outcome (Project T S)
  close p = it.close p.child >>= λ c. ok (record p { child = c; is_open = false })

  unfoldable pub rewind : Project T S → Outcome (Project T S)
  rewind p = do check_open p.is_open; c ← it.rewind p.child; ok (record p { child = c })

  abbrev pub project_operator : OpIterator T (Project T S)
  project_operator = record {
    configure = configure;
    open_op = open_op;
    next = next;
    close = close;
    rewind = rewind;
  }
