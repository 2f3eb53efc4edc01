-- ===== src/Query/Aggregating.antt =====
-- aggregate.rs: what `Aggregate` gives when it is read once.
use mathlib.Core.List.{Perm, Pairwise, append_assoc, append-nil}
use mathlib.Core.List.Perm
use crusty_db.Prelude.{
  ℕ, ◌+◌, ◌<◌, ◌≡◌, refl, sym, ◌∙◌, true, false, List, [], ◌∷◌, ◌++◌, none, some, ltb, lt→ltb,
  ltb-false, length, length-append, arith, ==_iff,
}
use crusty_db.Order.{is_le, IsOrder}
use crusty_db.Order.Slices.{Decides, same_slices, compare_slices, compare_slices-IsOrder}
use crusty_db.Order.Sorting.{sort_by-perm, sort_by-IsSorted}
use crusty_db.Expr.Bytecode.{ByteCodeExpr}
use crusty_db.Query.{ok, Tuple, OpIterator}
use crusty_db.Query.Executor.{IsPass}
use crusty_db.Query.Draining.{fold_tuples, fold_child_lem}
use crusty_db.Query.Hashing.{get-middle}
use crusty_db.Query.Aggregate.{
  AggOp, Fields, Group, Aggregate, new, get_group, outputs, merge_tuple_into_group, sort_groups,
  configure, open_op, next, close, aggregate,
}
use crusty_db.Query.Columns.{Shows}
use crusty_db.Query.Describing.{Summarizes, outputs-Shows, summary-Summarizes, passing-All}
use crusty_db.Query.Grouping.{
  IsDistinct, HasFields, members, HasSummaries, collect_groups-ends, collect_groups,
}

module _ {T : Type 0} (f : Fields T) (o : IsOrder f.cmp) where
  -- The keys of two groups are in order.
  abbrev pub GroupLe : Group T → Group T → Type 0
  GroupLe a b = is_le (compare_slices f.cmp a.key b.key) ≡ true

  groups-IsOrder : IsOrder (λ a b. compare_slices f.cmp (Group.key a) (Group.key b))
  groups-IsOrder = record {
    flips = λ a b. (compare_slices-IsOrder f.cmp o).flips a.key b.key;
    trans = λ a b c. (compare_slices-IsOrder f.cmp o).trans a.key b.key c.key;
  }

module _ {T S : Type 0} (f : Fields T) (eq : Decides f.same) (o : IsOrder f.cmp)
    (arrange : List (Group T) → List (Group T))
    (arranged : (l : List (Group T)) → Perm (arrange l) l) (it : OpIterator T S)
    (groupby_expr agg_expr : List (ByteCodeExpr T)) (ops : List AggOp)
    (key_of vals_of : Tuple T → List T) (first : S) (all : List (Tuple T)) (c : IsPass it first all)
    (fuel : ℕ) (enough : length all < fuel) where
  sort_groups-perm : (gs : List (Group T)) → Perm (sort_groups f arrange it gs) gs
  unfolding sort_groups
  sort_groups-perm gs =
      Perm.trans
        (sort_by-perm (λ a b. compare_slices f.cmp (Group.key a) (Group.key b)) (arrange gs))
        (arranged gs)

  sort_groups-IsSorted :
      (gs : List (Group T)) → Pairwise (GroupLe f o) (sort_groups f arrange it gs)
  unfolding sort_groups
  sort_groups-IsSorted gs =
      sort_by-IsSorted (λ a b. compare_slices f.cmp (Group.key a) (Group.key b))
        (groups-IsOrder f o) (arrange gs)

  -- An open operator with `xs` to come.
  abbrev Left : List (Tuple T) → List (Tuple T) → Aggregate T S → Type 0
  Left out xs a =
      (before : List (Tuple T)) × (before ++ xs ≡ out)
      × (a.is_open ≡ true)
      × (a.acc_iter ≡ out)
      × (a.index ≡ length before)
      × c.left [] a.child

  give :
      (out : List (Tuple T)) (x : Tuple T) (xs : List (Tuple T)) (a : Aggregate T S)
      → Left out (x ∷ xs) a
      → (a' : Aggregate T S) × (next f arrange it a ≡ ok (some x, a')) × Left out xs a'
  unfolding next
  give out x xs a (before, e, op, acc, i, l) =
      let more : ltb (length before) (length (before ++ (x ∷ xs))) ≡ true =
        lt→ltb (length before) (length (before ++ (x ∷ xs)))
          (omega (arith, length-append before (x ∷ xs))) in
      (
        record a { index = a.index + 1 },
        rw (op, acc, i, ← e, more, get-middle before x xs) refl,
        (
          before ++ (x ∷ []),
          append_assoc before (x ∷ []) xs ∙ e,
          op,
          acc,
          omega (arith, i, length-append before (x ∷ [])),
          l,
        ),
      )

  finish :
      (out : List (Tuple T)) (a : Aggregate T S)
      → Left out [] a
      → (a' : Aggregate T S) × (next f arrange it a ≡ ok (none, a')) × Left out [] a'
  unfolding next
  finish out a (before, e, op, acc, i, l) =
      let whole : before ≡ out = sym (append-nil before) ∙ e in
      (
        a,
        rw (op, acc, i, ← whole, ltb-false (length before) (length before) (omega arith)) refl,
        (before, e, op, acc, i, l),
      )

  abbrev start : Aggregate T S
  start = record {
    groupby_expr = groupby_expr;
    agg_expr = agg_expr;
    ops = ops;
    child = first;
    will_rewind = true;
    is_open = false;
    acc = [];
    acc_iter = [];
    index = 0;
  }

  new-start : length ops ≡ length agg_expr → new groupby_expr agg_expr ops first ≡ ok start
  unfolding new
  new-start h = rw ((==_iff (length ops) (length agg_expr)).1 h) refl

  -- For as many operations as expressions, over a child that, read once, gives `all`, with
  -- expressions that have a key and values for each tuple, a test and an order of fields that are
  -- right, any order in which the hash map gives its entries, and more rounds than tuples, where
  -- neither the merging of a key's tuples nor the output of the groups panics: `new` returns, and
  -- the operator, read once, gives a tuple for each of a list of groups. These have different
  -- keys, in order. A key that a tuple of `all` has is the key of a group, whose entry is the
  -- number of the tuples with the key and, for each operation, the aggregate of its column of
  -- their values: as many ones added up for `COUNT`, the values added up for `SUM` and `AVG`, a
  -- value of the column that the others are at most for `MAX`, and one that is at most the others
  -- for `MIN`. The tuple of a group is its key with these values, those of `AVG` divided by the
  -- number.
  pub aggregate-IsPass :
      length ops ≡ length agg_expr
      → HasFields f eq arrange it groupby_expr agg_expr ops key_of vals_of all
      → HasSummaries f eq arrange it groupby_expr agg_expr ops key_of vals_of [] all
      → ((r : List (Group T))
          → fold_tuples it (merge_tuple_into_group f arrange it groupby_expr agg_expr ops) [] all
            ≡ ok r
          → (out : List (Tuple T)) × (outputs f ops (sort_groups f arrange it r) ≡ ok out))
      → (a : Aggregate T S) × (new groupby_expr agg_expr ops first ≡ ok a)
        × ((groups sorted : List (Group T)) × (out : List (Tuple T)) × IsPass
              (aggregate f arrange it fuel)
              a
              out
            × Shows f ops sorted out
            × Perm sorted groups
            × Pairwise (GroupLe f o) sorted
            × IsDistinct f eq groups
            × ((k : List T)
                → Summarizes f o eq arrange it groupby_expr agg_expr ops key_of vals_of
                    (members f eq arrange it groupby_expr agg_expr ops key_of vals_of k all)
                    (get_group f k groups)))
  unfolding configure open_op close get_group
  aggregate-IsPass same_length fields sums finals =
      let (r, ran) =
        collect_groups-ends f eq arrange it groupby_expr agg_expr ops key_of vals_of all [] fields
          sums in
      let (distinct, right) =
        collect_groups f eq arrange it groupby_expr agg_expr ops key_of vals_of all [] r fields tt
          ran in
      let (out, shown) = finals r ran in
      let (s₁, ran₁, l₁) = c.opens in
      let (s₂, ran₂, l₂) =
        fold_child_lem it (merge_tuple_into_group f arrange it groupby_expr agg_expr ops) first all
          c fuel all [] r s₁ enough l₁ ran in
      (
        start,
        new-start same_length,
        (
          r,
          sort_groups f arrange it r,
          out,
          record {
            left = Left out;
            opens = (
              record {
                groupby_expr = groupby_expr;
                agg_expr = agg_expr;
                ops = ops;
                child = s₂;
                will_rewind = false;
                is_open = true;
                acc = r;
                acc_iter = out;
                index = 0;
              },
              rw (ran₁, ran₂, shown) refl,
              ([], refl, refl, refl, refl, l₂),
            );
            yields = give out;
            ends = finish out;
            closes = λ xs a (before, e, op, acc, i, l).
                let (s, closed) = c.closes [] a.child l in
                (
                  record a { child = s; acc = []; acc_iter = []; index = 0; is_open = false },
                  rw closed refl,
                );
          },
          outputs-Shows f ops (sort_groups f arrange it r) out shown,
          sort_groups-perm r,
          sort_groups-IsSorted r,
          distinct,
          λ k.
              summary-Summarizes f o eq arrange it groupby_expr agg_expr ops key_of vals_of
                (members f eq arrange it groupby_expr agg_expr ops key_of vals_of k all)
                (get_group f k r)
                (passing-All f o eq arrange it groupby_expr agg_expr ops key_of vals_of
                  (λ t. same_slices f.same (key_of t) k) all same_length fields)
                (right k),
        ),
      )
