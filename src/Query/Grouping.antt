-- ===== src/Query/Grouping.antt =====
-- aggregate.rs: the groups that the loop of `open` collects.
use crusty_db.Prelude.{
  ℕ, ◌≡◌, refl, sym, ◌∙◌, ap, inl, inr, true, List, [], ◌∷◌, Option, none, some, if◌then◌else◌, All,
  arith, Bool-cases,
}
use crusty_db.Expr.Bytecode.{ByteCodeExpr}
use crusty_db.Query.{Outcome, ok, ◌>>=◌, split_first, Tuple, OpIterator}
use crusty_db.Query.Project.{new_field_vals}
use crusty_db.Query.Draining.{fold_tuples}
use crusty_db.Query.Filtering.{passing}
use crusty_db.Order.Slices.{Decides, same_slices, same_slices_iff}
use crusty_db.Query.Aggregate.{
  AggOp, Fields, Group, merge_group, get_group, put_group, merge_tuple_into_group,
}

module _ {T : Type 0} (f : Fields T) (eq : Decides f.same) where
  get-put_group :
      (k key : List T) (e : ℕ × List T) (gs : List (Group T))
      → get_group f k (put_group f key e gs)
        ≡ (if same_slices f.same key k then some e else get_group f k gs)
  unfolding get_group put_group
  get-put_group k key e [] = refl
  get-put_group k key e (g ∷ gs) = ground (
    arith,
    get-put_group k key e gs,
    same_slices_iff f.same eq g.key key,
    same_slices_iff f.same eq g.key k,
    same_slices_iff f.same eq key k,
  )

  -- The groups' keys are different.
  abbrev pub IsDistinct : List (Group T) → Type 0
  IsDistinct [] = Unit
  IsDistinct (g ∷ gs) = (get_group f g.key gs ≡ none) × IsDistinct gs

  put_group-IsDistinct :
      (key : List T) (e : ℕ × List T) (gs : List (Group T))
      → IsDistinct gs
      → IsDistinct (put_group f key e gs)
  unfolding get_group put_group
  put_group-IsDistinct key e [] h = (refl, tt)
  put_group-IsDistinct key e (g ∷ gs) (new, h) = elim (Bool-cases (same_slices f.same g.key key)) [
    | inl q ↦ rw q (new, h)
    | inr q ↦ rw q (
      ground (
        arith,
        get-put_group g.key key e gs,
        same_slices_iff f.same eq g.key key,
        same_slices_iff f.same eq key g.key,
      ),
      put_group-IsDistinct key e gs h,
    )
  ]

module _ {T S : Type 0} (f : Fields T) (eq : Decides f.same)
    (arrange : List (Group T) → List (Group T)) (it : OpIterator T S)
    (groupby_expr agg_expr : List (ByteCodeExpr T)) (ops : List AggOp)
    (key_of vals_of : Tuple T → List T) where
  -- The expressions give a key and values on each tuple.
  abbrev pub HasFields : List (Tuple T) → Type 0
  HasFields xs =
      All
        (λ t.
          (new_field_vals f.ops it groupby_expr t ≡ ok (key_of t))
          × (new_field_vals f.ops it agg_expr t ≡ ok (vals_of t)))
        xs

  -- The tuples with a key, in order.
  abbrev pub members : List T → List (Tuple T) → List (Tuple T)
  members k xs = passing (λ t. same_slices f.same (key_of t) k) xs

  -- The aggregates of a list of tuples, from those of tuples before them, if there are any.
  abbrev pub summary : Option (ℕ × List T) → List (Tuple T) → Outcome (Option (ℕ × List T))
  summary e [] = ok e
  summary e (t ∷ ts) = merge_group f ops (vals_of t) e >>= λ e'. summary (some e') ts

  merge_tuple :
      (x : Tuple T) (acc : List (Group T))
      → new_field_vals f.ops it groupby_expr x ≡ ok (key_of x)
      → new_field_vals f.ops it agg_expr x ≡ ok (vals_of x)
      → merge_tuple_into_group f arrange it groupby_expr agg_expr ops acc x ≡ (
          merge_group f ops (vals_of x) (get_group f (key_of x) acc) >>= λ n.
          ok (put_group f (key_of x) n acc))
  unfolding merge_tuple_into_group
  merge_tuple x acc hk hv = rw (hk, hv) refl

  -- A key's entry before and after one tuple.
  summary-put :
      (k : List T) (x : Tuple T) (xs : List (Tuple T)) (acc : List (Group T)) (n : ℕ × List T)
      → merge_group f ops (vals_of x) (get_group f (key_of x) acc) ≡ ok n
      → summary (get_group f k acc) (members k (x ∷ xs))
        ≡ summary (get_group f k (put_group f (key_of x) n acc)) (members k xs)
  summary-put k x xs acc n m = elim (Bool-cases (same_slices f.same (key_of x) k)) [
    | inl q ↦
        let here : key_of x ≡ k = (same_slices_iff f.same eq (key_of x) k).0 q in
        let merged : merge_group f ops (vals_of x) (get_group f k acc) ≡ ok n =
          ap (λ j. merge_group f ops (vals_of x) (get_group f j acc)) (sym here) ∙ m in
        rw (get-put_group f eq k (key_of x) n acc, q, merged) refl
    | inr q ↦ rw (get-put_group f eq k (key_of x) n acc, q) refl
  ]

  -- No summary of a key's tuples panics.
  abbrev pub HasSummaries : List (Group T) → List (Tuple T) → Type 0
  HasSummaries acc xs =
      (k : List T) → (o : Option (ℕ × List T)) × (summary (get_group f k acc) (members k xs) ≡ ok o)

  HasSummaries-put :
      (x : Tuple T) (xs : List (Tuple T)) (acc : List (Group T)) (n : ℕ × List T)
      → merge_group f ops (vals_of x) (get_group f (key_of x) acc) ≡ ok n
      → HasSummaries acc (x ∷ xs)
      → HasSummaries (put_group f (key_of x) n acc) xs
  HasSummaries-put x xs acc n m h k =
      let (o, ran) = h k in (o, sym (summary-put k x xs acc n m) ∙ ran)

  -- If no summary panics, the loop ends.
  pub collect_groups-ends :
      (xs : List (Tuple T)) (acc : List (Group T))
      → HasFields xs
      → HasSummaries acc xs
      → (r : List (Group T)) × (fold_tuples it
            (merge_tuple_into_group f arrange it groupby_expr agg_expr ops)
            acc
            xs
          ≡ ok r)
  collect_groups-ends [] acc h sums = (acc, refl)
  collect_groups-ends (x ∷ xs) acc ((hk, hv), hs) sums =
      let (o, ran) = sums (key_of x) in
      let own : List (Tuple T) = members (key_of x) xs in
      let self : same_slices f.same (key_of x) (key_of x) ≡ true =
        (same_slices_iff f.same eq (key_of x) (key_of x)).1 refl in
      let first : summary (get_group f (key_of x) acc) (x ∷ own) ≡ ok o =
        ap (λ b. summary (get_group f (key_of x) acc) (if b then x ∷ own else own)) (sym self)
        ∙ ran in
      let (n, m, more) =
        split_first (merge_group f ops (vals_of x) (get_group f (key_of x) acc))
          (λ e. summary (some e) own) first in
      let (r, ends) =
        collect_groups-ends xs (put_group f (key_of x) n acc) hs
          (HasSummaries-put x xs acc n m sums) in
      (r, rw (merge_tuple x acc hk hv, m) ends)

  -- When the loop ends, the groups have different keys, and the entry of each key is the summary
  -- of the tuples that have it.
  pub collect_groups :
      (xs : List (Tuple T)) (acc r : List (Group T))
      → HasFields xs
      → IsDistinct f eq acc
      → fold_tuples it (merge_tuple_into_group f arrange it groupby_expr agg_expr ops) acc xs ≡ ok r
      → IsDistinct f eq r
        × ((k : List T) → summary (get_group f k acc) (members k xs) ≡ ok (get_group f k r))
  collect_groups [] acc r h d e = let same : acc ≡ r = cc in rw (← same) (d, λ k. refl)
  collect_groups (x ∷ xs) acc r ((hk, hv), hs) d e =
      let body : List (Group T) → Tuple T → Outcome (List (Group T)) =
        merge_tuple_into_group f arrange it groupby_expr agg_expr ops in
      let (acc', q, e') = split_first (body acc x) (λ a. fold_tuples it body a xs) e in
      let (n, m, put) =
        split_first (merge_group f ops (vals_of x) (get_group f (key_of x) acc))
          (λ n. ok (put_group f (key_of x) n acc)) (sym (merge_tuple x acc hk hv) ∙ q) in
      let same : put_group f (key_of x) n acc ≡ acc' = cc in
      let (d', sums) =
        collect_groups xs (put_group f (key_of x) n acc) r hs
          (put_group-IsDistinct f eq (key_of x) n acc d)
          (ap (λ a. fold_tuples it body a xs) same ∙ e') in
      (d', λ k. summary-put k x xs acc n m ∙ sums k)
