-- ===== src/Query/HashJoin.antt =====
-- src/queryexe/src/opiterator/hash_join.rs.
use crusty_db.Prelude.{
  ℕ, zero, suc, ◌+◌, Bool, true, false, Option, none, some, List, [], ◌∷◌, ◌++◌, if◌then◌else◌,
  get_elem?,
}
use crusty_db.Expr.Bytecode.{Operators, ByteCodeExpr, eval}
use crusty_db.Query.{
  Outcome, ok, panicked, ◌>>=◌, ◌>>◌, unwrap, check_open, Tuple, merge, OpIterator,
}
use crusty_db.Query.Draining.{fold_child}

-- A hash map from a key to the tuples that have it. `same` is the equality of keys.
abbrev pub JoinMap : Type 0 → Type 0
JoinMap T = List (T × List (Tuple T))

module _ {T : Type 0} (same : T → T → Bool) where
  unfoldable pub get_bucket : T → JoinMap T → Option (List (Tuple T))
  get_bucket key [] = none
  get_bucket key ((k, bucket) ∷ m) = if same k key then some bucket else get_bucket key m

  -- `entry(key).or_default().push(t)`.
  unfoldable pub push_bucket : T → Tuple T → JoinMap T → JoinMap T
  push_bucket key t [] = (key, t ∷ []) ∷ []
  push_bucket key t ((k, bucket) ∷ m) =
      let rest = push_bucket key t m in
      if same k key then (k, bucket ++ (t ∷ [])) ∷ m else ((k, bucket) ∷ rest)

pub record HashEqJoin (T L R : Type 0) : Type 0 where
  pub left_expr : ByteCodeExpr T
  pub right_expr : ByteCodeExpr T
  pub left_child : L
  pub right_child : R
  pub is_open : Bool
  pub join_map : JoinMap T
  pub current_tuple : Option (Tuple T)
  pub current_idx : ℕ

unfoldable pub new : {T L R : Type 0} → ByteCodeExpr T → ByteCodeExpr T → L → R → HashEqJoin T L R
new left_expr right_expr left right = record {
  left_expr = left_expr;
  right_expr = right_expr;
  left_child = left;
  right_child = right;
  is_open = false;
  join_map = [];
  current_tuple = none;
  current_idx = 0;
}

-- The tuple of a bucket at an index below its length.
abbrev pub item_of : {T : Type 0} → Option (List (Tuple T)) → ℕ → Option (Tuple T)
item_of none idx = none
item_of (some bucket) idx = get_elem? bucket idx

-- The partner that a round has found is given, or the loop goes on.
abbrev pub item_or :
    {T L R : Type 0}
    → Option (Tuple T)
    → Tuple T
    → HashEqJoin T L R
    → Outcome (Option (Tuple T) × HashEqJoin T L R)
    → Outcome (Option (Tuple T) × HashEqJoin T L R)
item_or none right_tuple j rest = rest
item_or (some left_tuple) right_tuple j rest =
    ok (some (merge left_tuple right_tuple), record j { current_idx = j.current_idx + 1 })

module _ {T L R : Type 0} (ops : Operators T) (same : T → T → Bool) (on_left : OpIterator T L)
    (on_right : OpIterator T R) where
  unfoldable pub add_tuple : ByteCodeExpr T → JoinMap T → Tuple T → Outcome (JoinMap T)
  unfolding push_bucket
  add_tuple left_expr m t = do
    key ← unwrap (eval ops left_expr t.field_vals)
    ok (push_bucket same key t m)

  -- The loop of `next`, on fuel, of which each round takes one; running out of it counts as a
  -- panic.
  unfoldable pub next_tuple : ℕ → HashEqJoin T L R → Outcome (Option (Tuple T) × HashEqJoin T L R)
  unfolding get_bucket
  next_tuple zero j = panicked
  next_tuple (suc fuel) j = elim j.current_tuple [
    | none ↦ ok (none, j)
    | some right_tuple ↦ do
      right_key ← unwrap (eval ops j.right_expr right_tuple.field_vals)
      item_or (item_of (get_bucket same right_key j.join_map) j.current_idx) right_tuple j (do
        (current, r) ← on_right.next j.right_child
        next_tuple fuel (record j { right_child = r; current_tuple = current; current_idx = 0 }))
  ]

  unfoldable pub configure : Bool → HashEqJoin T L R → HashEqJoin T L R
  configure will_rewind j = record j {
    left_child = on_left.configure false j.left_child;
    right_child = on_right.configure will_rewind j.right_child;
  }

  -- The loop over the left child runs on fuel.
  unfoldable pub open_op : ℕ → HashEqJoin T L R → Outcome (HashEqJoin T L R)
  unfolding add_tuple
  open_op fuel j = if j.is_open then ok j else do
    l ← on_left.open_op j.left_child
    (m, l') ← fold_child on_left (add_tuple j.left_expr) fuel j.join_map l
    r ← on_right.open_op j.right_child
    (current, r') ← on_right.next r
    ok (record j {
      left_child = l';
      right_child = r';
      is_open = true;
      join_map = m;
      current_tuple = current;
      current_idx = 0;
    })

  unfoldable pub next : ℕ → HashEqJoin T L R → Outcome (Option (Tuple T) × HashEqJoin T L R)
  unfolding next_tuple
  next fuel j = do check_open j.is_open; next_tuple fuel j

  unfoldable pub close : HashEqJoin T L R → Outcome (HashEqJoin T L R)
  close j = do
    l ← on_left.close j.left_child
    r ← on_right.close j.right_child
    ok (record j {
      left_child = l;
      right_child = r;
      is_open = false;
      join_map = [];
      current_tuple = none;
      current_idx = 0;
    })

  unfoldable pub rewind : HashEqJoin T L R → Outcome (HashEqJoin T L R)
  rewind j = do
    check_open j.is_open
    r ← on_right.rewind j.right_child
    (current, r') ← on_right.next r
    ok (record j { right_child = r'; current_tuple = current; current_idx = 0 })

  abbrev pub hash_join : ℕ → OpIterator T (HashEqJoin T L R)
  hash_join fuel = record {
    configure = configure;
    open_op = open_op fuel;
    next = next fuel;
    close = close;
    rewind = rewind;
  }
