-- ===== src/Tests/Queries.antt =====
-- Query operators on concrete tuples, with numbers for fields.
use crusty_db.Prelude.{
  ◌≡◌, ℕ, refl, Bool, true, false, List, [], ◌∷◌, Option, none, some, ltb, ◌==◌, if◌then◌else◌,
  arith, map, get_elem?,
}
use crusty_db.Expr.Bytecode.{ByteCodeExpr, eval, run_from, push_from, pop_two}
use crusty_db.Query.{Tuple, new_tuple}
use crusty_db.Query.Streams.{IsStream}
use crusty_db.Query.TupleIterator.{TupleIterator, tuple_iterator}
use crusty_db.Query.Iterating.{tuple_iterator-IsStream}
use crusty_db.Query.Filter.{test, filter_operator}
use crusty_db.Query.Filtering.{passing, Decides, filter_operator-IsStream}
use crusty_db.Query.Project.{new_field_vals, project_operator}
use crusty_db.Query.Projecting.{Computes, project_operator-IsStream}
use crusty_db.Query.CrossJoin.{cross_join}
use crusty_db.Query.Joining.{pairs, cross_join-IsStream}
use crusty_db.Query.TupleIterator
use crusty_db.Query.{ok, panicked}
use crusty_db.Query.Executor.{execute, execute_lem, tuple_iterator-IsPass}
use crusty_db.Query.NestedLoopJoin
use crusty_db.Query.Filter
use crusty_db.Query.Project
use crusty_db.Query.CrossJoin
use crusty_db.Query.NestedLoopJoin.{nested_loop_join}
use crusty_db.Query.Matching.{joined, DecidesAll}
use crusty_db.Query.Nesting.{nested_loop_join-IsStream}
use crusty_db.Expr.{op_lt}
use crusty_db.Tests.Expressions.{numbers}

abbrev rows : List (Tuple ℕ)
rows = new_tuple (2 ∷ 20 ∷ []) ∷ new_tuple (9 ∷ 90 ∷ []) ∷ new_tuple (4 ∷ 40 ∷ []) ∷ []

abbrev scan : TupleIterator ℕ
scan = TupleIterator.new rows

rows-IsStream : IsStream (tuple_iterator {T = ℕ}) scan rows
rows-IsStream = tuple_iterator-IsStream rows

-- A number read as a Boolean.
abbrev bit : ℕ → Option Bool
bit n = if n == 0 then some false else if n == 1 then some true else none

-- The first column is below 5.
abbrev below_5 : ByteCodeExpr ℕ
below_5 = record { bytecodes = 1 ∷ 0 ∷ 0 ∷ 0 ∷ 8 ∷ []; literals = 5 ∷ [] }

abbrev is_below_5 : Tuple ℕ → Bool
is_below_5 t = elim (get_elem? t.field_vals 0) [ none ↦ false | some n ↦ ltb n 5 ]

rows_decided : Decides numbers bit tuple_iterator below_5 is_below_5 rows
unfolding test eval run_from push_from pop_two new_tuple
rows_decided = (refl, (refl, (refl, tt)))

filter_example :
    IsStream
      (filter_operator numbers bit tuple_iterator 4)
      (Filter.new below_5 scan)
      (passing is_below_5 rows)
filter_example =
    filter_operator-IsStream numbers bit tuple_iterator below_5 is_below_5 scan rows 4 rows-IsStream
      rows_decided (omega arith)

abbrev second : Tuple ℕ → List ℕ
second t = elim (get_elem? t.field_vals 1) [ none ↦ [] | some n ↦ n ∷ [] ]

abbrev column_1 : ByteCodeExpr ℕ
column_1 = record { bytecodes = 1 ∷ 1 ∷ []; literals = [] }

rows_computed : Computes numbers (tuple_iterator {T = ℕ}) (column_1 ∷ []) second rows
unfolding new_field_vals eval run_from push_from new_tuple
rows_computed = (refl, (refl, (refl, tt)))

project_example :
    IsStream
      (project_operator numbers tuple_iterator)
      (Project.new (column_1 ∷ []) scan)
      (map (λ t. new_tuple (second t)) rows)
project_example =
    project_operator-IsStream numbers tuple_iterator (column_1 ∷ []) second scan rows rows-IsStream
      rows_computed

cross_join_example :
    IsStream
      (cross_join (tuple_iterator {T = ℕ}) tuple_iterator 5)
      (CrossJoin.new scan scan)
      (pairs rows rows)
cross_join_example =
    cross_join-IsStream tuple_iterator tuple_iterator scan scan rows rows 5 rows-IsStream
      rows-IsStream (omega arith)

-- The first column of both sides.
abbrev column_0 : ByteCodeExpr ℕ
column_0 = record { bytecodes = 1 ∷ 0 ∷ []; literals = [] }

abbrev first_below : Tuple ℕ → Tuple ℕ → Bool
first_below l r = elim (get_elem? l.field_vals 0) [
  | none ↦ false
  | some a ↦ elim (get_elem? r.field_vals 0) [ none ↦ false | some b ↦ ltb a b ]
]

rows_compared :
    DecidesAll numbers bit
      (tuple_iterator {T = ℕ})
      (tuple_iterator {T = ℕ})
      op_lt
      column_0
      column_0
      first_below
      rows
      rows
unfolding NestedLoopJoin.test eval run_from push_from new_tuple
rows_compared =
    ((refl, (refl, (refl, tt))), ((refl, (refl, (refl, tt))), ((refl, (refl, (refl, tt))), tt)))

nested_loop_join_example :
    IsStream
      (nested_loop_join numbers bit (tuple_iterator {T = ℕ}) (tuple_iterator {T = ℕ}) 15)
      (NestedLoopJoin.new op_lt column_0 column_0 scan scan)
      (joined first_below rows rows)
nested_loop_join_example =
    nested_loop_join-IsStream numbers bit tuple_iterator tuple_iterator op_lt column_0 column_0
      first_below scan scan rows rows 15 rows-IsStream rows-IsStream rows_compared (omega arith)

execute_example :
    (execute (tuple_iterator {T = ℕ}) 4 (record { plan = some scan })
      ≡ ok (rows, record { plan = none }))
    × (execute (tuple_iterator {T = ℕ}) 4 (record { plan = none }) ≡ panicked)
execute_example = execute_lem tuple_iterator scan rows 4 (tuple_iterator-IsPass rows) (omega arith)
