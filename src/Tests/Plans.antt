-- ===== src/Tests/Plans.antt =====
-- The operators that read a child when they are opened, on concrete tuples with numbers for
-- fields.
use Prim.Native.Nat.{compare}
use mathlib.Core.List.{Perm, Pairwise}
use mathlib.Core.List.Perm
use crusty_db.Prelude.{
  ℕ, ◌+◌, ◌/◌, ◌++◌, if◌then◌else◌, ◌≡◌, refl, true, false, List, [], ◌∷◌, Option, none, some, ◌==◌,
  ==_iff, arith, get_elem?,
}
use crusty_db.Order.{IsOrder}
use crusty_db.Expr.Bytecode.{ByteCodeExpr, eval, run_from, push_from}
use crusty_db.Query.{Tuple, Outcome, new_tuple, ok}
use crusty_db.Order.Slices.{Decides}
use crusty_db.Query.Executor.{IsPass, tuple_iterator-IsPass}
use crusty_db.Query.TupleIterator.{TupleIterator, tuple_iterator, close}
use crusty_db.Query.TupleIterator
use crusty_db.Query.Draining.{ClosesAgain}
use crusty_db.Query.Keys.{SortFields, sort_key}
use crusty_db.Query.Sort.{sort_operator}
use crusty_db.Query.Sort
use crusty_db.Query.Sorting.{HasKeys, KeyLe, sort_operator-IsPass}
use crusty_db.Query.HashJoin.{hash_join}
use crusty_db.Query.HashJoin
use crusty_db.Query.Hashing.{HasKey, matches}
use crusty_db.Query.EquiJoin.{hash_join-IsPass}
use crusty_db.Query.Project.{new_field_vals}
use crusty_db.Query.Aggregate.{
  AggOp, sum, Fields, Group, merge_group, get_group, outputs, final_agg, sort_groups, aggregate,
  Aggregate,
}
use crusty_db.Query.Aggregate
use crusty_db.Query.Columns.{Shows}
use crusty_db.Query.Describing.{Summarizes}
use crusty_db.Query.Grouping.{IsDistinct, HasFields, members, summary}
use crusty_db.Query.Aggregating.{GroupLe, aggregate-IsPass}
use crusty_db.Tests.Expressions.{numbers}

-- A group's number and a value.
abbrev rows : List (Tuple ℕ)
rows = new_tuple (2 ∷ 20 ∷ []) ∷ new_tuple (1 ∷ 90 ∷ []) ∷ new_tuple (2 ∷ 40 ∷ []) ∷ []

abbrev scan : TupleIterator ℕ
scan = TupleIterator.new rows

rows-IsPass : IsPass (tuple_iterator {T = ℕ}) scan rows
rows-IsPass = tuple_iterator-IsPass rows

abbrev column : ℕ → ByteCodeExpr ℕ
column i = record { bytecodes = 1 ∷ i ∷ []; literals = [] }

abbrev cell : ℕ → Tuple ℕ → ℕ
cell i t = elim (get_elem? t.field_vals i) [ none ↦ 0 | some n ↦ n ]

pub ℕ-IsOrder : IsOrder compare
ℕ-IsOrder = record { flips = λ a b. ground arith; trans = λ a b c h k. ground arith }

closes_again : ClosesAgain (tuple_iterator {T = ℕ})
unfolding close
closes_again s s' e = (_, refl)

-- By the group, ascending, then by the value, descending.
abbrev by_group : SortFields ℕ
by_group = (column 0, true) ∷ (column 1, false) ∷ []

abbrev cells : Tuple ℕ → List ℕ
cells t = cell 0 t ∷ cell 1 t ∷ []

rows-HasKeys : HasKeys numbers compare (tuple_iterator {T = ℕ}) by_group cells rows
unfolding sort_key eval run_from push_from new_tuple
rows-HasKeys = (refl, (refl, (refl, tt)))

sort_operator_example :
    (out : List (Tuple ℕ)) × IsPass
      (sort_operator numbers compare tuple_iterator 4)
      (Sort.new by_group scan)
      out
    × Perm out rows
    × Pairwise (KeyLe numbers compare (tuple_iterator {T = ℕ}) by_group cells) out
sort_operator_example =
    sort_operator-IsPass numbers compare tuple_iterator by_group cells scan rows rows-IsPass 4
      (omega arith) rows-HasKeys ℕ-IsOrder closes_again

pub ℕ-Decides : Decides ◌==◌
ℕ-Decides a b = ==_iff a b

rows-HasKey :
    HasKey numbers ◌==◌ ℕ-Decides
      (tuple_iterator {T = ℕ})
      (tuple_iterator {T = ℕ})
      (column 0)
      (column 0)
      (cell 0)
      (cell 0)
      (column 0)
      (cell 0)
      rows
unfolding eval run_from push_from new_tuple
rows-HasKey = (refl, (refl, (refl, tt)))

hash_join_example :
    IsPass
      (hash_join numbers ◌==◌ (tuple_iterator {T = ℕ}) tuple_iterator 5)
      (HashJoin.new (column 0) (column 0) scan scan)
      (matches numbers ◌==◌ ℕ-Decides
        (tuple_iterator {T = ℕ})
        (tuple_iterator {T = ℕ})
        (column 0)
        (column 0)
        (cell 0)
        (cell 0)
        rows
        rows)
hash_join_example =
    hash_join-IsPass numbers ◌==◌ ℕ-Decides tuple_iterator tuple_iterator (column 0) (column 0)
      (cell 0) (cell 0) rows scan rows scan rows-IsPass rows-IsPass 5 (omega arith) (omega arith)
      rows-HasKey rows-HasKey

abbrev number_fields : Fields ℕ
number_fields = record {
  ops = numbers;
  same = ◌==◌;
  cmp = compare;
  one = 1;
  average = λ s n. if n == 0 then none else some (s / n);
}

-- The sum of the values of a group.
abbrev summing : List AggOp
summing = sum ∷ []

abbrev group_key : Tuple ℕ → List ℕ
group_key t = cell 0 t ∷ []

abbrev value : Tuple ℕ → List ℕ
value t = cell 1 t ∷ []

rows-HasFields :
    HasFields number_fields ℕ-Decides
      (λ gs. gs)
      (tuple_iterator {T = ℕ})
      (column 0 ∷ [])
      (column 1 ∷ [])
      summing
      group_key
      value
      rows
unfolding new_field_vals eval run_from push_from new_tuple
rows-HasFields = ((refl, refl), ((refl, refl), ((refl, refl), tt)))

abbrev sums : Option (ℕ × List ℕ) → List (Tuple ℕ) → Outcome (Option (ℕ × List ℕ))
sums e xs =
    summary number_fields ℕ-Decides (λ gs. gs) (tuple_iterator {T = ℕ}) (column 0 ∷ [])
      (column 1 ∷ []) summing group_key value e xs

adds_up :
    (n a : ℕ) (xs : List (Tuple ℕ))
    → (o : Option (ℕ × List ℕ)) × (sums (some (n, a ∷ [])) xs ≡ ok o)
unfolding merge_group
adds_up n a [] = (_, refl)
adds_up n a (x ∷ xs) = adds_up (n + 1) (a + cell 1 x) xs

adds_up_all : (xs : List (Tuple ℕ)) → (o : Option (ℕ × List ℕ)) × (sums none xs ≡ ok o)
unfolding merge_group
adds_up_all [] = (_, refl)
adds_up_all (x ∷ xs) = adds_up 1 (cell 1 x) xs

shows : (gs : List (Group ℕ)) → (out : List (Tuple ℕ)) × (outputs number_fields summing gs ≡ ok out)
unfolding outputs
shows [] = (_, refl)
shows (g ∷ gs) =
    let (out, ran) = shows gs in
    let (vs, made) = final g.entry.0 g.entry.1 in
    (new_tuple (g.key ++ vs) ∷ out, rw (made, ran) refl)
  where
    final :
        (n : ℕ) (vals : List ℕ) → (vs : List ℕ) × (final_agg number_fields n summing vals ≡ ok vs)
    final n [] = (_, refl)
    final n (v ∷ vals) = (_, refl)

aggregate_example :
    (a : Aggregate ℕ (TupleIterator ℕ)) × (Aggregate.new
        (column 0 ∷ [])
        (column 1 ∷ [])
        summing
        scan
      ≡ ok a)
    × ((groups sorted : List (Group ℕ)) × (out : List (Tuple ℕ)) × IsPass
          (aggregate number_fields (λ gs. gs) tuple_iterator 4)
          a
          out
        × Shows number_fields summing sorted out
        × Perm sorted groups
        × Pairwise (GroupLe number_fields ℕ-IsOrder) sorted
        × IsDistinct number_fields ℕ-Decides groups
        × ((k : List ℕ)
            → Summarizes number_fields ℕ-IsOrder ℕ-Decides
                (λ gs. gs)
                (tuple_iterator {T = ℕ})
                (column 0 ∷ [])
                (column 1 ∷ [])
                summing
                group_key
                value
                (members number_fields ℕ-Decides
                  (λ gs. gs)
                  (tuple_iterator {T = ℕ})
                  (column 0 ∷ [])
                  (column 1 ∷ [])
                  summing
                  group_key
                  value
                  k
                  rows)
                (get_group number_fields k groups)))
unfolding get_group
aggregate_example =
    aggregate-IsPass number_fields ℕ-Decides ℕ-IsOrder (λ gs. gs) (λ gs. Perm.rfl) tuple_iterator
      (column 0 ∷ []) (column 1 ∷ []) summing group_key value scan rows rows-IsPass 4 (omega arith)
      refl rows-HasFields
      (λ k. adds_up_all (
        members number_fields ℕ-Decides (λ gs. gs) (tuple_iterator {T = ℕ}) (column 0 ∷ [])
          (column 1 ∷ []) summing group_key value k rows))
      (λ r ran. shows (sort_groups number_fields (λ gs. gs) (tuple_iterator {T = ℕ}) r))
