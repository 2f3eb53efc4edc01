-- ===== src/Query/Filter.antt =====
-- src/queryexe/src/opiterator/filter.rs.
use crusty_db.Prelude.{ℕ, zero, suc, Bool, true, false, Option, none, some, if◌then◌else◌}
use crusty_db.Expr.Bytecode.{Operators, ByteCodeExpr, eval}
use crusty_db.Query.{Outcome, ok, err, panicked, ◌>>=◌, ◌>>◌, unwrap, check_open, Tuple, OpIterator}

pub record Filter (T S : Type 0) : Type 0 where
  pub predicate : ByteCodeExpr T
  pub child : S
  pub is_open : Bool

unfoldable pub new : {T S : Type 0} → ByteCodeExpr T → S → Filter T S
new predicate child = record { predicate = predicate; child = child; is_open = false }

-- `as_bool` matches a field with `Field::Bool(b)`.
module _ {T S : Type 0} (ops : Operators T) (as_bool : T → Option Bool) (it : OpIterator T S) where
  -- The predicate on a tuple, which must be a Boolean.
  unfoldable pub test : ByteCodeExpr T → Tuple T → Outcome Bool
  test predicate t = unwrap (eval ops predicate t.field_vals) >>= λ v. elim (as_bool v) [
    | none ↦ err
    | some b ↦ ok b
  ]

  -- The loop of `next` over the child, on fuel, of which each round takes one; running out of it
  -- counts as a panic.
  unfoldable pub next_passing : ℕ → ByteCodeExpr T → S → Outcome (Option (Tuple T) × S)
  unfolding test
  next_passing zero predicate child = panicked
  next_passing (suc fuel) predicate child = do
    (item, child') ← it.next child
    let rest = next_passing fuel predicate child'
    elim item [
      | none ↦ ok (none, child')
      | some t ↦ do b ← test predicate t; if b then ok (some t, child') else rest
    ]

  unfoldable pub configure : Bool → Filter T S → Filter T S
  configure will_rewind f = record f { child = it.configure will_rewind f.child }

  unfoldable pub open_op : Filter T S → Outcome (Filter T S)
  open_op f =
      if f.is_open
      then ok f
      else it.open_op f.child >>= λ c. ok (record f { child = c; is_open = true })

  unfoldable pub next : ℕ → Filter T S → Outcome (Option (Tuple T) × Filter T S)
  next fuel f = do
    check_open f.is_open
    (item, c) ← next_passing fuel f.predicate f.child
    ok (item, record f { child = c })

  unfoldable pub close : Filter T S → Outcome (Filter T S)
  close f = it.close f.child >>= λ c. ok (record f { child = c; is_open = false })

  unfoldable pub rewind : Filter T S → Outcome (Filter T S)
  rewind f = do check_open f.is_open; c ← it.rewind f.child; ok (record f { child = c })

  abbrev pub filter_operator : ℕ → OpIterator T (Filter T S)
  filter_operator fuel = record {
    configure = configure;
    open_op = open_op;
    next = next fuel;
    close = close;
    rewind = rewind;
  }
