-- ===== src/Query/Summing.antt =====
-- aggregate.rs: the loops over a tuple's values compute the aggregates of the columns.
use mathlib.Core.List.{mem-cons_self, mem-cons_of_mem, Mem}
use mathlib.Core.List.Perm
use mathlib.Core.Path.{subst}
use crusty_db.Prelude.{
  ◌≡◌, refl, sym, ◌∙◌, inl, inr, true, List, [], ◌∷◌, none, some, length, OrPanic, arith,
  Bool-cases,
}
use crusty_db.Order.{is_le, IsOrder}
use crusty_db.Order.Sorting.{le_total}
use crusty_db.Query.{ok, ◌>>=◌, unwrap, split_first}
use crusty_db.Query.Aggregate.{
  AggOp, avg, count, max, min, sum, Fields, merge_fields, merge_all, init,
}
use crusty_db.Query.Columns.{total, ones, IsAggregate, heads, tails, Describes}

pub unwrap-some : {T : Type 0} (x : OrPanic T) (a : T) → unwrap x ≡ ok a → x ≡ some a
unwrap-some none a e = absurd cc
unwrap-some (some b) a e = cc

module _ {T : Type 0} (f : Fields T) where
  -- The aggregate of the values `vs`, on top of that of values before.
  abbrev Continues : AggOp → T → List T → T → Type 0
  Continues count a vs r = total f a (ones f vs) ≡ some r
  Continues sum a vs r = total f a vs ≡ some r
  Continues avg a vs r = total f a vs ≡ some r
  Continues max a vs r = IsAggregate f max a vs r
  Continues min a vs r = IsAggregate f min a vs r

  module _ (o : IsOrder f.cmp) where
    le_self : (a : T) → is_le (f.cmp a a) ≡ true
    le_self a = elim (Bool-cases (is_le (f.cmp a a))) [ inl e ↦ e | inr e ↦ le_total f.cmp o a a e ]

    Continues-nil : (op : AggOp) (a : T) → Continues op a [] a
    Continues-nil count a = refl
    Continues-nil sum a = refl
    Continues-nil avg a = refl
    Continues-nil max a = (mem-cons_self, (le_self a, tt))
    Continues-nil min a = (mem-cons_self, (le_self a, tt))

    second_later : (a v r : T) (vs : List T) → Mem r (a ∷ vs) → Mem r (a ∷ v ∷ vs)
    second_later a v r vs m = (Perm.mem_iff (Perm.swap a v vs)).0 (mem-cons_of_mem v m)

    merge_fields-Continues :
        (op : AggOp) (v a a' r : T) (vs : List T)
        → merge_fields f op v a ≡ some a'
        → Continues op a' vs r
        → Continues op a (v ∷ vs) r
    unfolding merge_fields
    merge_fields-Continues count v a a' r vs e h = rw e h
    merge_fields-Continues sum v a a' r vs e h = rw e h
    merge_fields-Continues avg v a a' r vs e h = rw e h
    merge_fields-Continues max v a a' r vs e h = elim (Bool-cases (is_le (f.cmp a v))) [
      | inl q ↦
          let same : v ≡ a' = cc in
          let (m, (le, les)) : Continues max v vs r = rw same h in
          (mem-cons_of_mem a m, (o.trans a v r q le, (le, les)))
      | inr q ↦
          let same : a ≡ a' = cc in
          let (m, (le, les)) : Continues max a vs r = rw same h in
          (second_later a v r vs m, (le, (o.trans v a r (le_total f.cmp o a v q) le, les)))
    ]
    merge_fields-Continues min v a a' r vs e h = elim (Bool-cases (is_le (f.cmp a v))) [
      | inl q ↦
          let same : a ≡ a' = cc in
          let (m, (le, les)) : Continues min a vs r = rw same h in
          (second_later a v r vs m, (le, (o.trans r a v le q, les)))
      | inr q ↦
          let same : v ≡ a' = cc in
          let (m, (le, les)) : Continues min v vs r = rw same h in
          (mem-cons_of_mem a m, (o.trans r v a le (le_total f.cmp o a v q), (le, les)))
    ]

  abbrev pub ContinuesAll : List AggOp → List T → List (List T) → List T → Type 0
  ContinuesAll [] acc rows res = res ≡ acc
  ContinuesAll (op ∷ ops) [] rows res = res ≡ []
  ContinuesAll (op ∷ ops) (a ∷ acc) rows (r ∷ res) =
      Continues op a (heads f rows) r × ContinuesAll ops acc (tails f rows) res
  ContinuesAll (op ∷ ops) (a ∷ acc) rows [] = ⊥

  split_merge :
      (op : AggOp) (v a : T) (ops : List AggOp) (row acc acc' : List T)
      → merge_all f (op ∷ ops) (v ∷ row) (a ∷ acc) ≡ ok acc'
      → (a' : T) × (rest : List T) × (merge_fields f op v a ≡ some a')
        × (merge_all f ops row acc ≡ ok rest)
        × (a' ∷ rest ≡ acc')
  unfolding merge_all
  split_merge op v a ops row acc acc' e =
      let (a', first, e₁) =
        split_first (unwrap (merge_fields f op v a))
          (λ a'. merge_all f ops row acc >>= λ rest. ok (a' ∷ rest)) e in
      let (rest, more, e₂) = split_first (merge_all f ops row acc) (λ rest. ok (a' ∷ rest)) e₁ in
      (a', rest, unwrap-some (merge_fields f op v a) a' first, more, cc)

  module _ (o : IsOrder f.cmp) where
    pub ContinuesAll-nil : (ops : List AggOp) (acc : List T) → ContinuesAll ops acc [] acc
    ContinuesAll-nil [] acc = refl
    ContinuesAll-nil (op ∷ ops) [] = refl
    ContinuesAll-nil (op ∷ ops) (a ∷ acc) = (Continues-nil o op a, ContinuesAll-nil ops acc)

    pub merge_all-ContinuesAll :
        (ops : List AggOp) (row acc acc' : List T) (rows : List (List T)) (res : List T)
        → merge_all f ops row acc ≡ ok acc'
        → ContinuesAll ops acc' rows res
        → ContinuesAll ops acc (row ∷ rows) res
    unfolding merge_all
    merge_all-ContinuesAll [] row acc acc' rows res e h = let same : acc ≡ acc' = cc in h ∙ sym same
    merge_all-ContinuesAll (op ∷ ops) [] acc acc' rows res e h = absurd cc
    merge_all-ContinuesAll (op ∷ ops) (v ∷ row) [] acc' rows res e h = absurd cc
    merge_all-ContinuesAll (op ∷ ops) (v ∷ row) (a ∷ acc) acc' rows [] e h =
        let (a', rest, first, more, same) = split_merge op v a ops row acc acc' e in
        let none_left : ContinuesAll (op ∷ ops) (a' ∷ rest) rows [] =
          subst (λ l. ContinuesAll (op ∷ ops) l rows []) (sym same) h in
        absurd none_left
    merge_all-ContinuesAll (op ∷ ops) (v ∷ row) (a ∷ acc) acc' rows (r ∷ res) e h =
        let (a', rest, first, more, same) = split_merge op v a ops row acc acc' e in
        let (c, cs) : ContinuesAll (op ∷ ops) (a' ∷ rest) rows (r ∷ res) =
          subst (λ l. ContinuesAll (op ∷ ops) l rows (r ∷ res)) (sym same) h in
        (
          merge_fields-Continues o op v a a' r (heads f rows) first c,
          merge_all-ContinuesAll ops row acc rest (tails f rows) res more cs,
        )

  pub init-Describes :
      (ops : List AggOp) (row : List T) (rows : List (List T)) (res : List T)
      → length row ≡ length ops
      → ContinuesAll ops (init f ops row) rows res
      → Describes f ops row rows res
  unfolding init
  init-Describes [] row rows res e h = h
  init-Describes (op ∷ ops) [] rows res e h = absurd (omega (arith, e))
  init-Describes (count ∷ ops) (v ∷ row) rows (r ∷ res) e (h, hs) =
      (h, init-Describes ops row (tails f rows) res (omega (arith, e)) hs)
  init-Describes (sum ∷ ops) (v ∷ row) rows (r ∷ res) e (h, hs) =
      (h, init-Describes ops row (tails f rows) res (omega (arith, e)) hs)
  init-Describes (avg ∷ ops) (v ∷ row) rows (r ∷ res) e (h, hs) =
      (h, init-Describes ops row (tails f rows) res (omega (arith, e)) hs)
  init-Describes (max ∷ ops) (v ∷ row) rows (r ∷ res) e (h, hs) =
      (h, init-Describes ops row (tails f rows) res (omega (arith, e)) hs)
  init-Describes (min ∷ ops) (v ∷ row) rows (r ∷ res) e (h, hs) =
      (h, init-Describes ops row (tails f rows) res (omega (arith, e)) hs)
  init-Describes (count ∷ ops) (v ∷ row) rows [] e h = absurd h
  init-Describes (sum ∷ ops) (v ∷ row) rows [] e h = absurd h
  init-Describes (avg ∷ ops) (v ∷ row) rows [] e h = absurd h
  init-Describes (max ∷ ops) (v ∷ row) rows [] e h = absurd h
  init-Describes (min ∷ ops) (v ∷ row) rows [] e h = absurd h
