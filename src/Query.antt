-- ===== src/Query.antt =====
-- src/queryexe/src/opiterator: query operators. Tuples are those of src/common/src/tuple.rs, over
-- any type of fields. An operator's child is any state with the operations of `OpIterator`.
pub mod Streams
pub mod TupleIterator
pub mod Iterating
pub mod Filter
pub mod Filtering
pub mod Project
pub mod Projecting
pub mod CrossJoin
pub mod Joining
pub mod Executor
pub mod NestedLoopJoin
pub mod Matching
pub mod Nesting
pub mod Draining
pub mod Keys
pub mod Sort
pub mod Reversing
pub mod Sorting
pub mod HashJoin
pub mod Hashing
pub mod EquiJoin
pub mod Aggregate
pub mod Columns
pub mod Summing
pub mod Grouping
pub mod Describing
pub mod Aggregating
use crusty_db.Prelude.{
  ℕ, Bool, List, [], ◌∷◌, ◌++◌, Option, none, some, OrPanic, true, false, ◌≡◌, refl,
}
use crusty_db.Ids.{ValueId}

-- The outcome of a call: a result, an error that the caller passes on, or a panic.
pub data Outcome (A : Type 0) : Type 0 where
  ok : A → Outcome A
  err : Outcome A
  panicked : Outcome A

infixl 5 ◌>>=◌ ◌>>◌
abbrev pub ◌>>=◌ : {A B : Type 0} → Outcome A → (A → Outcome B) → Outcome B
ok a >>= f = f a
err >>= f = err
panicked >>= f = panicked

abbrev pub ◌>>◌ : {B : Type 0} → Outcome (Unit {0}) → Outcome B → Outcome B
m >> k = m >>= λ _. k

abbrev pub unwrap : {A : Type 0} → OrPanic A → Outcome A
unwrap none = panicked
unwrap (some a) = ok a

-- `if !self.open { panic!(..) }`.
abbrev pub check_open : Bool → Outcome (Unit {0})
check_open true = ok tt
check_open false = panicked

-- Of a sequence that ends well, the first call's result.
abbrev pub GoesThrough : {A B : Type 0} → Outcome A → (A → Outcome B) → B → Type 0
GoesThrough {A} first next b = (result : A) × (first ≡ ok result) × (next result ≡ ok b)

pub split_first :
    {A B : Type 0} (first : Outcome A) (next : A → Outcome B) {b : B}
    → (first >>= next) ≡ ok b
    → GoesThrough first next b
split_first panicked next e = absurd cc
split_first err next e = absurd cc
split_first (ok result) next e = (result, refl, e)

-- The header's fields that are always compiled in.
pub record Tuple (T : Type 0) : Type 0 where
  pub tid : ℕ
  pub value_id : Option ValueId
  pub field_vals : List T

unfoldable pub new_tuple : {T : Type 0} → List T → Tuple T
new_tuple fields = record { tid = 0; value_id = none; field_vals = fields }

unfoldable pub merge : {T : Type 0} → Tuple T → Tuple T → Tuple T
unfolding new_tuple
merge left right = new_tuple (left.field_vals ++ right.field_vals)

-- `OpIterator`: what an operator does with its child, whose states are of type `S`. A method
-- that takes `&mut self` returns the new state; `open_op` is `open`.
pub record OpIterator (T S : Type 0) : Type 0 where
  pub configure : Bool → S → S
  pub open_op : S → Outcome S
  pub next : S → Outcome (Option (Tuple T) × S)
  pub close : S → Outcome S
  pub rewind : S → Outcome S
