-- ===== src/Query/TupleIterator.antt =====
-- src/queryexe/src/opiterator/tuple_iterator.rs: the iterator over a list of tuples.
use crusty_db.Prelude.{
  ℕ, ◌-◌, Bool, true, false, Option, none, some, List, [], ◌∷◌, ◌++◌, ◌==◌, if◌then◌else◌, length,
  get_elem?,
}
use crusty_db.Query.{Outcome, ok, ◌>>◌, check_open, Tuple, OpIterator}

pub record TupleIterator (T : Type 0) : Type 0 where
  pub tuples : List (Tuple T)
  pub will_rewind : Bool
  pub is_open : Bool
  pub index : ℕ

abbrev pub reverse : {A : Type 0} → List A → List A
reverse [] = []
reverse (x ∷ xs) = reverse xs ++ (x ∷ [])

-- `Vec::pop`, which leaves an empty list as it is.
abbrev pub pop : {A : Type 0} → List A → Option A × List A
pop [] = (none, [])
pop (x ∷ []) = (some x, [])
pop (x ∷ y ∷ ys) = let (last, rest) = pop (y ∷ ys) in (last, x ∷ rest)

module _ {T : Type 0} where
  unfoldable pub new : List (Tuple T) → TupleIterator T
  new tuples = record {
    tuples = reverse tuples;
    will_rewind = true;
    is_open = false;
    index = length tuples;
  }

  unfoldable pub configure : Bool → TupleIterator T → TupleIterator T
  configure will_rewind it = record it { will_rewind = will_rewind }

  unfoldable pub open_op : TupleIterator T → Outcome (TupleIterator T)
  open_op it = ok (record it { is_open = true })

  unfoldable pub next : TupleIterator T → Outcome (Option (Tuple T) × TupleIterator T)
  next it = do
    check_open it.is_open
    if it.will_rewind
        then (if it.index == 0
            then ok (none, it)
            else ok (get_elem? it.tuples (it.index - 1), record it { index = it.index - 1 }))
        else (let (item, rest) = pop it.tuples in ok (item, record it { tuples = rest }))

  unfoldable pub close : TupleIterator T → Outcome (TupleIterator T)
  close it = ok (record it { index = 0; is_open = false })

  unfoldable pub rewind : TupleIterator T → Outcome (TupleIterator T)
  rewind it = do
    check_open it.is_open
    check_open it.will_rewind
    ok (record it { index = length it.tuples })

  abbrev pub tuple_iterator : OpIterator T (TupleIterator T)
  tuple_iterator = record {
    configure = configure;
    open_op = open_op;
    next = next;
    close = close;
    rewind = rewind;
  }
