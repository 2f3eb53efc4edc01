-- ===== src/Query/Describing.antt =====
-- aggregate.rs: the entry of a group and its output tuple, against the columns of its tuples.
use mathlib.Core.Path.{subst}
use crusty_db.Prelude.{
  ℕ, suc, ◌+◌, ◌≡◌, sym, ◌∙◌, ap, inl, inr, Bool, List, [], ◌∷◌, ◌++◌, Option, none, some, length,
  map, All, arith, Bool-cases,
}
use crusty_db.Order.{IsOrder}
use crusty_db.Expr.Bytecode.{ByteCodeExpr, eval}
use crusty_db.Query.{ok, ◌>>=◌, unwrap, split_first, Tuple, new_tuple, OpIterator}
use crusty_db.Query.Filtering.{passing}
use crusty_db.Query.Project.{new_field_vals}
use crusty_db.Order.Slices.{Decides}
use crusty_db.Query.Aggregate.{
  AggOp, avg, count, max, min, sum, Fields, Group, init, merge_all, merge_group, final_value,
  final_agg, output, outputs,
}
use crusty_db.Query.Columns.{Describes, IsFinal, Finals, Shows}
use crusty_db.Query.Grouping.{HasFields, summary}
use crusty_db.Query.Summing.{
  ContinuesAll, ContinuesAll-nil, merge_all-ContinuesAll, init-Describes, unwrap-some,
}

module _ {T S : Type 0} (f : Fields T) where
  pub length-new_field_vals :
      (it : OpIterator T S) (exprs : List (ByteCodeExpr T)) (t : Tuple T) (vals : List T)
      → new_field_vals f.ops it exprs t ≡ ok vals
      → length vals ≡ length exprs
  unfolding new_field_vals
  length-new_field_vals it [] t vals e = let same : [] ≡ vals = cc in ap length (sym same)
  length-new_field_vals it (expr ∷ exprs) t vals e =
      let (v, first, e₁) =
        split_first (unwrap (eval f.ops expr t.field_vals))
          (λ v. new_field_vals f.ops it exprs t >>= λ vs. ok (v ∷ vs)) e in
      let (vs, rest, e₂) = split_first (new_field_vals f.ops it exprs t) (λ vs. ok (v ∷ vs)) e₁ in
      let same : v ∷ vs ≡ vals = cc in
      ap length (sym same) ∙ ap suc (length-new_field_vals it exprs t vs rest)

module _ {T : Type 0} (f : Fields T) where
  final_value-IsFinal :
      (n : ℕ) (op : AggOp) (v w : T) → final_value f n op v ≡ some w → IsFinal f n op v w
  unfolding final_value
  final_value-IsFinal n avg v w e = e
  final_value-IsFinal n count v w e = cc
  final_value-IsFinal n max v w e = cc
  final_value-IsFinal n min v w e = cc
  final_value-IsFinal n sum v w e = cc

  final_agg-Finals :
      (n : ℕ) (ops : List AggOp) (vals ws : List T)
      → final_agg f n ops vals ≡ ok ws
      → Finals f n ops vals ws
  unfolding final_agg
  final_agg-Finals n [] vals ws e = cc
  final_agg-Finals n (op ∷ ops) [] ws e = cc
  final_agg-Finals n (op ∷ ops) (v ∷ vals) ws e =
      let (w, first, e₁) =
        split_first (unwrap (final_value f n op v))
          (λ w. final_agg f n ops vals >>= λ ws. ok (w ∷ ws)) e in
      let (rest, more, e₂) = split_first (final_agg f n ops vals) (λ ws. ok (w ∷ ws)) e₁ in
      let same : w ∷ rest ≡ ws = cc in
      subst (Finals f n (op ∷ ops) (v ∷ vals)) same (
        final_value-IsFinal n op v w (unwrap-some (final_value f n op v) w first),
        final_agg-Finals n ops vals rest more,
      )

  pub outputs-Shows :
      (ops : List AggOp) (gs : List (Group T)) (out : List (Tuple T))
      → outputs f ops gs ≡ ok out
      → Shows f ops gs out
  unfolding outputs output
  outputs-Shows ops [] [] e = tt
  outputs-Shows ops [] (t ∷ ts) e = absurd cc
  outputs-Shows ops (g ∷ gs) out e =
      let (t, first, e₁) =
        split_first (output f ops g) (λ t. outputs f ops gs >>= λ ts. ok (t ∷ ts)) e in
      let (ts, rest, e₂) = split_first (outputs f ops gs) (λ ts. ok (t ∷ ts)) e₁ in
      let (ws, ended, made) =
        split_first (final_agg f g.entry.0 ops g.entry.1) (λ ws. ok (new_tuple (g.key ++ ws)))
          first in
      let same : t ∷ ts ≡ out = cc in
      subst (Shows f ops (g ∷ gs)) same
        ((ws, cc, final_agg-Finals g.entry.0 ops g.entry.1 ws ended), outputs-Shows ops gs ts rest)

module _ {T S : Type 0} (f : Fields T) (o : IsOrder f.cmp) (eq : Decides f.same)
    (arrange : List (Group T) → List (Group T)) (it : OpIterator T S)
    (groupby_expr agg_expr : List (ByteCodeExpr T)) (ops : List AggOp)
    (key_of vals_of : Tuple T → List T) where
  -- What a group has of its tuples: their number, and the aggregates of their columns. No tuples
  -- have no group.
  abbrev pub Summarizes : List (Tuple T) → Option (ℕ × List T) → Type 0
  Summarizes [] e = e ≡ none
  Summarizes (t ∷ ts) e =
      (res : List T) × (e ≡ some (suc (length ts), res))
      × Describes f ops (vals_of t) (map vals_of ts) res

  summary-ContinuesAll :
      (n : ℕ) (acc : List T) (ts : List (Tuple T)) (e : Option (ℕ × List T))
      → summary f eq arrange it groupby_expr agg_expr ops key_of vals_of (some (n, acc)) ts ≡ ok e
      → (res : List T) × (e ≡ some (n + length ts, res))
        × ContinuesAll f ops acc (map vals_of ts) res
  unfolding merge_group
  summary-ContinuesAll n acc [] e q =
      let same : some (n, acc) ≡ e = cc in
      (acc, sym same ∙ ap (λ k. some (k, acc)) (omega arith), ContinuesAll-nil f o ops acc)
  summary-ContinuesAll n acc (t ∷ ts) e q =
      let (e₁, merged, q₁) =
        split_first (merge_group f ops (vals_of t) (some (n, acc)))
          (λ e₁. summary f eq arrange it groupby_expr agg_expr ops key_of vals_of (some e₁) ts) q in
      let (acc', all_merged, same) =
        split_first (merge_all f ops (vals_of t) acc) (λ acc'. ok (n + 1, acc')) merged in
      let pair : (n + 1, acc') ≡ e₁ = cc in
      let (res, r, c) = summary-ContinuesAll (n + 1) acc' ts e (
        ap (λ e₁. summary f eq arrange it groupby_expr agg_expr ops key_of vals_of (some e₁) ts)
          pair
        ∙ q₁) in
      (
        res,
        r ∙ ap (λ k. some (k, res)) (omega arith),
        merge_all-ContinuesAll f o ops (vals_of t) acc acc' (map vals_of ts) res all_merged c,
      )

  pub summary-Summarizes :
      (ts : List (Tuple T)) (e : Option (ℕ × List T))
      → All (λ t. length (vals_of t) ≡ length ops) ts
      → summary f eq arrange it groupby_expr agg_expr ops key_of vals_of none ts ≡ ok e
      → Summarizes ts e
  unfolding merge_group
  summary-Summarizes [] e h q = cc
  summary-Summarizes (t ∷ ts) e (h, hs) q =
      let (res, r, c) = summary-ContinuesAll 1 (init f ops (vals_of t)) ts e q in
      (
        res,
        r ∙ ap (λ k. some (k, res)) (omega arith),
        init-Describes f ops (vals_of t) (map vals_of ts) res h c,
      )

  pub passing-All :
      (keep : Tuple T → Bool) (ts : List (Tuple T))
      → length ops ≡ length agg_expr
      → HasFields f eq arrange it groupby_expr agg_expr ops key_of vals_of ts
      → All (λ t. length (vals_of t) ≡ length ops) (passing keep ts)
  passing-All keep [] same h = tt
  passing-All keep (t ∷ ts) same ((hk, hv), hs) = elim (Bool-cases (keep t)) [
    | inl q ↦ rw q (
      length-new_field_vals f it agg_expr t (vals_of t) hv ∙ sym same,
      passing-All keep ts same hs,
    )
    | inr q ↦ rw q (passing-All keep ts same hs)
  ]
