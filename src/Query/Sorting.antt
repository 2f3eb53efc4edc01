-- ===== src/Query/Sorting.antt =====
-- sort.rs: `Sort` streams its child's tuples in the order of their keys.
use Prim.Native.Nat.{Ordering}
use mathlib.Core.List.{Perm, Pairwise, append-nil, append_assoc}
use mathlib.Core.List.Perm
use crusty_db.Prelude.{
  ℕ, ◌<◌, ◌≡◌, refl, sym, ◌∙◌, ap, true, false, List, [], ◌∷◌, ◌++◌, none, some, length, map, All,
}
use crusty_db.Order.{is_le, IsOrder, sort_by}
use crusty_db.Order.Sorting.{sort_by-perm, sort_by-IsSorted, sort_by-map}
use crusty_db.Expr.Bytecode.{Operators}
use crusty_db.Query.{ok, Tuple, OpIterator}
use crusty_db.Query.Executor.{IsPass, pop-append}
use crusty_db.Query.TupleIterator.{reverse}
use crusty_db.Query.Reversing.{reverse-reverse, reverse-perm, reverse-map, Pairwise-reverse}
use crusty_db.Query.Draining.{fold_tuples, fold_child_lem, ClosesAgain}
use crusty_db.Query.Keys.{SortFields, sort_key, compare_keys, compare_keys-IsOrder}
use crusty_db.Query.Sort.{
  Row, Sort, new, push_row, sort_rows, configure, open_op, next, close, sort_operator,
}

module _ {T S : Type 0} (ops : Operators T) (cmp : T → T → Ordering) (it : OpIterator T S)
    (fields : SortFields T) (key : Tuple T → List T) where
  -- The fields' expressions give the key `key` on each tuple.
  abbrev pub HasKeys : List (Tuple T) → Type 0
  HasKeys xs = All (λ t. sort_key ops fields t ≡ ok (key t)) xs

  -- The keys of two tuples are in order.
  abbrev pub KeyLe : Tuple T → Tuple T → Type 0
  KeyLe a b = is_le (compare_keys cmp fields (key a) (key b)) ≡ true

  abbrev rows_of : List (Tuple T) → List (Row T)
  rows_of xs = map (λ t. (key t, t)) xs

  read_rows :
      (xs : List (Tuple T)) (rows : List (Row T))
      → HasKeys xs
      → fold_tuples it (push_row ops cmp it fields) rows xs ≡ ok (rows ++ rows_of xs)
  unfolding push_row
  read_rows [] rows h = ap ok (sym (append-nil rows))
  read_rows (x ∷ xs) rows (h, hs) = rw h (
      read_rows xs (rows ++ ((key x, x) ∷ [])) hs
      ∙ ap ok (append_assoc rows ((key x, x) ∷ []) (rows_of xs)))

  -- The order of the keys, backwards.
  abbrev backwards : Tuple T → Tuple T → Ordering
  backwards a b = compare_keys cmp fields (key b) (key a)

  -- The tuples in the order of their keys.
  abbrev pub in_order : List (Tuple T) → List (Tuple T)
  in_order xs = reverse (sort_by backwards xs)

  in_order-perm : (xs : List (Tuple T)) → Perm (in_order xs) xs
  in_order-perm xs = Perm.trans (reverse-perm (sort_by backwards xs)) (sort_by-perm backwards xs)

  backwards-IsOrder : IsOrder cmp → IsOrder backwards
  backwards-IsOrder o =
      let k = compare_keys-IsOrder cmp o fields in
      record {
        flips = λ a b. k.flips (key b) (key a);
        trans = λ a b c h h'. k.trans (key c) (key b) (key a) h' h;
      }

  in_order-IsSorted : (xs : List (Tuple T)) → IsOrder cmp → Pairwise KeyLe (in_order xs)
  in_order-IsSorted xs o =
      Pairwise-reverse (λ a b. hlevel) (sort_by backwards xs)
        (sort_by-IsSorted backwards (backwards-IsOrder o) xs)

  -- The rows as `open` leaves them.
  sort_rows-rows_of :
      (xs : List (Tuple T))
      → sort_rows ops cmp it fields (rows_of xs) ≡ reverse (rows_of (in_order xs))
  unfolding sort_rows
  sort_rows-rows_of xs =
      sort_by-map (λ t. (key t, t)) (λ a b. compare_keys cmp fields b.0 a.0) xs
      ∙ ap rows_of (sym (reverse-reverse (sort_by backwards xs)))
      ∙ sym (reverse-map (λ t. (key t, t)) (in_order xs))

  -- An open sort with `xs` to come.
  abbrev Left : List (Tuple T) → Sort T S → Type 0
  Left xs s =
      (s.is_open ≡ true)
      × (s.will_rewind ≡ false)
      × (s.sorted_data ≡ reverse (rows_of xs))
      × ((c : S) × (it.close c ≡ ok s.child))

  yield_row :
      (x : Tuple T) (xs : List (Tuple T)) (s : Sort T S)
      → Left (x ∷ xs) s
      → (s' : Sort T S) × (next ops cmp it s ≡ ok (some x, s')) × Left xs s'
  unfolding next
  yield_row x xs s (o, w, d, closed) = (
    record s { sorted_data = reverse (rows_of xs) },
    rw (o, w, d, pop-append (reverse (rows_of xs)) (key x, x)) refl,
    (o, w, refl, closed),
  )

  end_rows :
      (s : Sort T S)
      → Left [] s
      → (s' : Sort T S) × (next ops cmp it s ≡ ok (none, s')) × Left [] s'
  unfolding next
  end_rows s (o, w, d, closed) =
      (record s { sorted_data = [] }, rw (o, w, d) refl, (o, w, refl, closed))

  module _ (first : S) (all : List (Tuple T)) (c : IsPass it first all) (fuel : ℕ)
      (enough : length all < fuel) (keys : HasKeys all) where
    open_rows :
        (s : Sort T S) × (open_op ops cmp it fuel (configure ops cmp it false (new fields first))
          ≡ ok s)
        × Left (in_order all) s
    unfolding open_op configure new
    open_rows =
        let (s₁, ran₁, l₁) = c.opens in
        let (s₂, ran₂, l₂) =
          fold_child_lem it (push_row ops cmp it fields) first all c fuel all [] (rows_of all) s₁
            enough l₁ (read_rows all [] keys) in
        let (s₃, ran₃) = c.closes [] s₂ l₂ in
        (
          record {
            fields = fields;
            child = s₃;
            will_rewind = false;
            is_open = true;
            sorted_data = sort_rows ops cmp it fields (rows_of all);
            index = length (rows_of all);
          },
          rw (ran₁, ran₂, ran₃) refl,
          (refl, refl, sort_rows-rows_of all, (s₂, ran₃)),
        )

    -- Over a child that, read once, gives `all`, and that can be closed twice, with fields that
    -- have a key for each tuple, and with more rounds than tuples in `open`: `Sort`, read once,
    -- gives a list of tuples that is a permutation of `all`, and in which the keys of any two
    -- tuples are in the order of the fields, each ascending or descending.
    pub sort_operator-IsPass :
        IsOrder cmp
        → ClosesAgain it
        → (out : List (Tuple T)) × IsPass (sort_operator ops cmp it fuel) (new fields first) out
          × Perm out all
          × Pairwise KeyLe out
    unfolding close
    sort_operator-IsPass o again = (
      in_order all,
      record {
        left = Left;
        opens = open_rows;
        yields = yield_row;
        ends = end_rows;
        closes = λ xs s (op, w, d, (c₀, closed)).
            let (c₁, ran) = again c₀ s.child closed in
            (record s { child = c₁; sorted_data = []; index = 0; is_open = false }, rw ran refl);
      },
      in_order-perm all,
      in_order-IsSorted all o,
    )
