-- ===== src/Query/Aggregate.antt =====
-- src/queryexe/src/opiterator/aggregate.rs, with `AggOp` of src/common/src/query/operation.rs.
use Prim.Native.Nat.{Ordering}
use crusty_db.Prelude.{
  ℕ, ◌+◌, Bool, true, false, Option, none, some, List, [], ◌∷◌, ◌++◌, if◌then◌else◌, length, ◌==◌,
  get_elem?, ltb, OrPanic,
}
use crusty_db.Order.{is_le, sort_by}
use crusty_db.Order.Slices.{same_slices, compare_slices}
use crusty_db.Expr.Bytecode.{Operators, ByteCodeExpr}
use crusty_db.Query.{
  Outcome, ok, panicked, ◌>>=◌, ◌>>◌, unwrap, check_open, Tuple, new_tuple, OpIterator,
}
use crusty_db.Query.Draining.{fold_child}
use crusty_db.Query.Project.{new_field_vals}

pub data AggOp : Type 0 where
  avg count max min sum : AggOp

-- What the operator uses of the fields' type: `one` is `BigInt(1)`, and `average` the decimal of a
-- sum over a count, which is computed in floating point, and panics if the sum is no integer.
pub record Fields (T : Type 0) : Type 0 where
  pub ops : Operators T
  pub same : T → T → Bool
  pub cmp : T → T → Ordering
  pub one : T
  pub average : T → ℕ → OrPanic T

-- The key of a group, and the number of its tuples with the values so far.
pub record Group (T : Type 0) : Type 0 where
  pub key : List T
  pub entry : ℕ × List T

pub record Aggregate (T S : Type 0) : Type 0 where
  pub groupby_expr : List (ByteCodeExpr T)
  pub agg_expr : List (ByteCodeExpr T)
  pub ops : List AggOp
  pub child : S
  pub will_rewind : Bool
  pub is_open : Bool
  pub acc : List (Group T)
  pub acc_iter : List (Tuple T)
  pub index : ℕ

-- It asserts that there are as many operations as expressions.
unfoldable pub new :
    {T S : Type 0}
    → List (ByteCodeExpr T)
    → List (ByteCodeExpr T)
    → List AggOp
    → S
    → Outcome (Aggregate T S)
new groupby_expr agg_expr ops child = do
  check_open (length ops == length agg_expr)
  ok (record {
    groupby_expr = groupby_expr;
    agg_expr = agg_expr;
    ops = ops;
    child = child;
    will_rewind = true;
    is_open = false;
    acc = [];
    acc_iter = [];
    index = 0;
  })

module _ {T : Type 0} (f : Fields T) where
  unfoldable pub merge_fields : AggOp → T → T → OrPanic T
  merge_fields count val acc = f.ops.add acc f.one
  merge_fields max val acc = some (if is_le (f.cmp acc val) then val else acc)
  merge_fields min val acc = some (if is_le (f.cmp acc val) then acc else val)
  merge_fields sum val acc = f.ops.add acc val
  merge_fields avg val acc = f.ops.add acc val

  -- `merge_fields` for each operation, at its index of both lists.
  unfoldable pub merge_all : List AggOp → List T → List T → Outcome (List T)
  unfolding merge_fields
  merge_all [] vals acc = ok acc
  merge_all (op ∷ ops) [] acc = panicked
  merge_all (op ∷ ops) (v ∷ vals) [] = panicked
  merge_all (op ∷ ops) (v ∷ vals) (a ∷ acc) = do
    a' ← unwrap (merge_fields op v a)
    acc' ← merge_all ops vals acc
    ok (a' ∷ acc')

  unfoldable pub init : List AggOp → List T → List T
  init [] vals = []
  init (op ∷ ops) [] = []
  init (count ∷ ops) (v ∷ vals) = f.one ∷ init ops vals
  init (op ∷ ops) (v ∷ vals) = v ∷ init ops vals

  -- What a tuple makes of its group.
  unfoldable pub merge_group : List AggOp → List T → Option (ℕ × List T) → Outcome (ℕ × List T)
  unfolding merge_all init
  merge_group ops vals none = ok (1, init ops vals)
  merge_group ops vals (some (n, acc)) = do acc' ← merge_all ops vals acc; ok (n + 1, acc')

  -- `get` and the update of a hash map's entry.
  unfoldable pub get_group : List T → List (Group T) → Option (ℕ × List T)
  get_group key [] = none
  get_group key (g ∷ gs) = if same_slices f.same g.key key then some g.entry else get_group key gs

  unfoldable pub put_group : List T → ℕ × List T → List (Group T) → List (Group T)
  put_group key e [] = record { key = key; entry = e } ∷ []
  put_group key e (g ∷ gs) =
      let rest = put_group key e gs in
      if same_slices f.same g.key key then record g { entry = e } ∷ gs else (g ∷ rest)

  unfoldable pub final_value : ℕ → AggOp → T → OrPanic T
  final_value n avg v = f.average v n
  final_value n op v = some v

  unfoldable pub final_agg : ℕ → List AggOp → List T → Outcome (List T)
  unfolding final_value
  final_agg n [] vals = ok []
  final_agg n (op ∷ ops) [] = ok []
  final_agg n (op ∷ ops) (v ∷ vals) = do
    v' ← unwrap (final_value n op v)
    vs ← final_agg n ops vals
    ok (v' ∷ vs)

  -- The output tuple of a group.
  unfoldable pub output : List AggOp → Group T → Outcome (Tuple T)
  unfolding final_agg
  output ops g = do vs ← final_agg g.entry.0 ops g.entry.1; ok (new_tuple (g.key ++ vs))

  unfoldable pub outputs : List AggOp → List (Group T) → Outcome (List (Tuple T))
  unfolding output
  outputs ops [] = ok []
  outputs ops (g ∷ gs) = do t ← output ops g; ts ← outputs ops gs; ok (t ∷ ts)

-- `arrange` is the order in which a hash map gives its entries.
module _ {T S : Type 0} (f : Fields T) (arrange : List (Group T) → List (Group T))
    (it : OpIterator T S) where
  unfoldable pub merge_tuple_into_group :
      List (ByteCodeExpr T)
      → List (ByteCodeExpr T)
      → List AggOp
      → List (Group T)
      → Tuple T
      → Outcome (List (Group T))
  unfolding merge_group get_group put_group
  merge_tuple_into_group groupby_expr agg_expr ops acc tuple = do
    group_key ← new_field_vals f.ops it groupby_expr tuple
    agg_vals ← new_field_vals f.ops it agg_expr tuple
    e ← merge_group f ops agg_vals (get_group f group_key acc)
    ok (put_group f group_key e acc)

  unfoldable pub sort_groups : List (Group T) → List (Group T)
  sort_groups acc = sort_by (λ a b. compare_slices f.cmp a.key b.key) (arrange acc)

  unfoldable pub configure : Bool → Aggregate T S → Aggregate T S
  configure will_rewind a = record a {
    will_rewind = will_rewind;
    child = it.configure false a.child;
  }

  -- The loop over the child runs on fuel.
  unfoldable pub open_op : ℕ → Aggregate T S → Outcome (Aggregate T S)
  unfolding merge_tuple_into_group sort_groups outputs
  open_op fuel a = if a.is_open then ok a else do
    c ← it.open_op a.child
    (acc, c') ← fold_child it (merge_tuple_into_group a.groupby_expr a.agg_expr a.ops) fuel a.acc c
    ts ← outputs f a.ops (sort_groups acc)
    ok (record a { child = c'; acc = acc; acc_iter = a.acc_iter ++ ts; index = 0; is_open = true })

  unfoldable pub next : Aggregate T S → Outcome (Option (Tuple T) × Aggregate T S)
  next a = do
    check_open a.is_open
    if ltb a.index (length a.acc_iter)
        then ok (get_elem? a.acc_iter a.index, record a { index = a.index + 1 })
        else ok (none, a)

  unfoldable pub close : Aggregate T S → Outcome (Aggregate T S)
  close a = do
    c ← it.close a.child
    ok (record a { child = c; acc = []; acc_iter = []; index = 0; is_open = false })

  unfoldable pub rewind : Aggregate T S → Outcome (Aggregate T S)
  rewind a = do check_open a.is_open; check_open a.will_rewind; ok (record a { index = 0 })

  abbrev pub aggregate : ℕ → OpIterator T (Aggregate T S)
  aggregate fuel = record {
    configure = configure;
    open_op = open_op fuel;
    next = next;
    close = close;
    rewind = rewind;
  }
