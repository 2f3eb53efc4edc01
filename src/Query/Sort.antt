-- ===== src/Query/Sort.antt =====
-- src/queryexe/src/opiterator/sort.rs.
use Prim.Native.Nat.{Ordering}
use crusty_db.Prelude.{
  ℕ, ◌-◌, Bool, true, false, Option, none, some, List, [], ◌∷◌, ◌++◌, ◌==◌, if◌then◌else◌, length,
  get_elem?,
}
use crusty_db.Order.{sort_by}
use crusty_db.Expr.Bytecode.{Operators}
use crusty_db.Query.{Outcome, ok, ◌>>=◌, ◌>>◌, check_open, Tuple, OpIterator}
use crusty_db.Query.TupleIterator.{pop}
use crusty_db.Query.Draining.{fold_child}
use crusty_db.Query.Keys.{SortFields, sort_key, compare_keys}

abbrev pub Row : Type 0 → Type 0
Row T = List T × Tuple T

pub record Sort (T S : Type 0) : Type 0 where
  pub fields : SortFields T
  pub child : S
  pub will_rewind : Bool
  pub is_open : Bool
  pub sorted_data : List (Row T)
  pub index : ℕ

unfoldable pub new : {T S : Type 0} → SortFields T → S → Sort T S
new fields child = record {
  fields = fields;
  child = child;
  will_rewind = true;
  is_open = false;
  sorted_data = [];
  index = 0;
}

-- The item at an index of the rows, without its key.
abbrev pub tuple_of : {T : Type 0} → Option (Row T) → Option (Tuple T)
tuple_of none = none
tuple_of (some (key, tuple)) = some tuple

-- `cmp` is the order of the fields' type.
module _ {T S : Type 0} (ops : Operators T) (cmp : T → T → Ordering) (it : OpIterator T S) where
  unfoldable pub push_row : SortFields T → List (Row T) → Tuple T → Outcome (List (Row T))
  push_row fields rows t = do key ← sort_key ops fields t; ok (rows ++ ((key, t) ∷ []))

  -- In reverse: the rows are taken from the end.
  unfoldable pub sort_rows : SortFields T → List (Row T) → List (Row T)
  sort_rows fields rows = sort_by (λ a b. compare_keys cmp fields b.0 a.0) rows

  unfoldable pub configure : Bool → Sort T S → Sort T S
  configure will_rewind s = record s {
    will_rewind = will_rewind;
    child = it.configure false s.child;
  }

  -- The loop over the child runs on fuel.
  unfoldable pub open_op : ℕ → Sort T S → Outcome (Sort T S)
  unfolding push_row sort_rows
  open_op fuel s = if s.is_open then ok s else do
    c ← it.open_op s.child
    (rows, c') ← fold_child it (push_row s.fields) fuel s.sorted_data c
    c'' ← it.close c'
    ok (record s {
      child = c'';
      sorted_data = sort_rows s.fields rows;
      index = length rows;
      is_open = true;
    })

  unfoldable pub next : Sort T S → Outcome (Option (Tuple T) × Sort T S)
  next s = do
    check_open s.is_open
    if s.will_rewind
        then (if s.index == 0
            then ok (none, s)
            else ok (
              tuple_of (get_elem? s.sorted_data (s.index - 1)),
              record s { index = s.index - 1 },
            ))
        else (let (item, rest) = pop s.sorted_data in
            ok (tuple_of item, record s { sorted_data = rest }))

  unfoldable pub close : Sort T S → Outcome (Sort T S)
  close s = do
    c ← it.close s.child
    ok (record s { child = c; sorted_data = []; index = 0; is_open = false })

  unfoldable pub rewind : Sort T S → Outcome (Sort T S)
  rewind s = do
    check_open s.is_open
    check_open s.will_rewind
    ok (record s { index = length s.sorted_data })

  abbrev pub sort_operator : ℕ → OpIterator T (Sort T S)
  sort_operator fuel = record {
    configure = configure;
    open_op = open_op fuel;
    next = next;
    close = close;
    rewind = rewind;
  }
