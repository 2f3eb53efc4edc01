-- ===== src/Query/Columns.antt =====
-- aggregate.rs: what the aggregates of a group's values are.
use mathlib.Core.List.{Mem}
use crusty_db.Prelude.{ℕ, ◌≡◌, true, List, [], ◌∷◌, ◌++◌, some, OrPanic, ◌>>=◌, All}
use crusty_db.Order.{is_le}
use crusty_db.Query.{Tuple, new_tuple}
use crusty_db.Query.Aggregate.{AggOp, avg, count, max, min, sum, Fields, Group}

module _ {T : Type 0} (f : Fields T) where
  -- A value with others added to it, in order.
  abbrev pub total : T → List T → OrPanic T
  total a [] = some a
  total a (v ∷ vs) = f.ops.add a v >>= λ a'. total a' vs

  abbrev pub ones : List T → List T
  ones [] = []
  ones (v ∷ vs) = f.one ∷ ones vs

  -- The aggregate of a column with values `v ∷ vs`: `COUNT` is as many ones added up, `SUM` and
  -- (before its division) `AVG` the values added up, `MAX` a value that all are at most, and
  -- `MIN` one that is at most all.
  abbrev pub IsAggregate : AggOp → T → List T → T → Type 0
  IsAggregate count v vs r = total f.one (ones vs) ≡ some r
  IsAggregate sum v vs r = total v vs ≡ some r
  IsAggregate avg v vs r = total v vs ≡ some r
  IsAggregate max v vs r = Mem r (v ∷ vs) × All (λ x. is_le (f.cmp x r) ≡ true) (v ∷ vs)
  IsAggregate min v vs r = Mem r (v ∷ vs) × All (λ x. is_le (f.cmp r x) ≡ true) (v ∷ vs)

  -- The first column of a list of rows, and the others.
  abbrev pub heads : List (List T) → List T
  heads [] = []
  heads ([] ∷ rows) = heads rows
  heads ((v ∷ row) ∷ rows) = v ∷ heads rows

  abbrev pub tails : List (List T) → List (List T)
  tails [] = []
  tails ([] ∷ rows) = [] ∷ tails rows
  tails ((v ∷ row) ∷ rows) = row ∷ tails rows

  -- Each operation's aggregate of its column of the rows `row ∷ rows`.
  abbrev pub Describes : List AggOp → List T → List (List T) → List T → Type 0
  Describes [] row rows res = res ≡ []
  Describes (op ∷ ops) (v ∷ row) rows (r ∷ res) =
      IsAggregate op v (heads rows) r × Describes ops row (tails rows) res
  Describes (op ∷ ops) row rows res = ⊥

  -- The final value of a column in a group of `n` tuples: an `AVG` is divided by `n`.
  abbrev pub IsFinal : ℕ → AggOp → T → T → Type 0
  IsFinal n avg v w = f.average v n ≡ some w
  IsFinal n op v w = w ≡ v

  abbrev pub Finals : ℕ → List AggOp → List T → List T → Type 0
  Finals n (op ∷ ops) (v ∷ vs) (w ∷ ws) = IsFinal n op v w × Finals n ops vs ws
  Finals n (op ∷ ops) (v ∷ vs) [] = ⊥
  Finals n ops vs ws = ws ≡ []

  -- A tuple for each group, with its key and its final values.
  abbrev pub Shows : List AggOp → List (Group T) → List (Tuple T) → Type 0
  Shows ops [] [] = Unit
  Shows ops (g ∷ gs) (t ∷ ts) =
      ((ws : List T) × (t ≡ new_tuple (g.key ++ ws)) × Finals g.entry.0 ops g.entry.1 ws)
      × Shows ops gs ts
  Shows ops gs ts = ⊥
