-- ===== src/Query/Streams.antt =====
-- What the operators promise each other: an operator that streams a list of tuples.
use crusty_db.Prelude.{true, List, [], ◌∷◌, none, some, ◌≡◌}
use crusty_db.Query.{ok, Tuple, OpIterator}

-- From the state `first`, once opened, the operator gives the tuples of `all`, in order. `ready` says that a state waits to be opened,
-- `left xs` that it is open and that the tuples of `xs` are still to come: `next` gives them and
-- then `None` whenever it is called, and `rewind` starts again, which an operator that is
-- configured for it can do at any time. Nothing is said of opening an operator again after
-- `close`.
pub record IsStream {T S : Type 0} (it : OpIterator T S) (first : S) (all : List (Tuple T))
    : Type 1 where
  pub ready : S → Type 0
  pub left : List (Tuple T) → S → Type 0
  pub starts : ready first
  pub configures : (s : S) → ready s → ready (it.configure true s)
  pub opens : (s : S) → ready s → (s' : S) × (it.open_op s ≡ ok s') × left all s'
  pub stays_open :
      (xs : List (Tuple T)) (s : S) → left xs s → (s' : S) × (it.open_op s ≡ ok s') × left xs s'
  pub yields :
      (x : Tuple T) (xs : List (Tuple T)) (s : S)
      → left (x ∷ xs) s
      → (s' : S) × (it.next s ≡ ok (some x, s')) × left xs s'
  pub ends : (s : S) → left [] s → (s' : S) × (it.next s ≡ ok (none, s')) × left [] s'
  pub rewinds :
      (xs : List (Tuple T)) (s : S) → left xs s → (s' : S) × (it.rewind s ≡ ok s') × left all s'
  pub closes : (xs : List (Tuple T)) (s : S) → left xs s → (s' : S) × (it.close s ≡ ok s')
