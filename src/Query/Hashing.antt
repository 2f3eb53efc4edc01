-- ===== src/Query/Hashing.antt =====
-- hash_join.rs: `HashEqJoin`, read once, gives the pairs of tuples whose keys are equal.
use crusty_db.Prelude.{
  ℕ, zero, suc, ◌+◌, ◌≤◌, ◌<◌, ◌≡◌, refl, sym, ◌∙◌, ap, inl, inr, Bool, true, List, [], ◌∷◌, ◌++◌,
  Option, none, some, if◌then◌else◌, length, length-append, get_elem?, map, All, arith, Bool-cases,
}
use mathlib.Core.List.{append_assoc, append-nil}
use crusty_db.Expr.Bytecode.{Operators, ByteCodeExpr, eval}
use crusty_db.Query.{ok, ◌>>=◌, unwrap, Tuple, merge, OpIterator}
use crusty_db.Order.Slices.{Decides}
use crusty_db.Query.Executor.{IsPass}
use crusty_db.Query.Draining.{fold_tuples}
use crusty_db.Query.Filtering.{passing}
use crusty_db.Query.HashJoin.{
  JoinMap, get_bucket, push_bucket, HashEqJoin, item_of, item_or, add_tuple, next_tuple,
}

-- A bucket that is not there is empty.
abbrev or_empty : {A : Type 0} → Option (List A) → List A
or_empty none = []
or_empty (some l) = l

module _ {A : Type 0} where
  pub get-middle :
      (xs : List A) (y : A) (ys : List A) → get_elem? (xs ++ (y ∷ ys)) (length xs) ≡ some y
  get-middle [] y ys = refl
  get-middle (x ∷ xs) y ys = get-middle xs y ys

  pub get-end : (xs : List A) → get_elem? xs (length xs) ≡ none
  get-end [] = refl
  get-end (x ∷ xs) = get-end xs

item_of-or_empty :
    {T : Type 0} (o : Option (List (Tuple T))) (i : ℕ) → item_of o i ≡ get_elem? (or_empty o) i
item_of-or_empty none i = refl
item_of-or_empty (some l) i = refl

module _ {T : Type 0} (same : T → T → Bool) (eq : Decides same) where
  bucket-push :
      (k key : T) (t : Tuple T) (m : JoinMap T)
      → or_empty (get_bucket same k (push_bucket same key t m)) ≡ (
          if same key k
          then or_empty (get_bucket same k m) ++ (t ∷ [])
          else or_empty (get_bucket same k m))
  unfolding get_bucket push_bucket
  bucket-push k key t [] = ground arith
  bucket-push k key t ((k', bucket) ∷ m) =
      ground (arith, bucket-push k key t m, eq k' key, eq k' k, eq key k)

module _ {T L R : Type 0} (ops : Operators T) (same : T → T → Bool) (eq : Decides same)
    (on_left : OpIterator T L) (on_right : OpIterator T R) (left_expr right_expr : ByteCodeExpr T)
    (left_key right_key : Tuple T → T) where
  -- The expression gives the key `key` on each tuple.
  abbrev pub HasKey : ByteCodeExpr T → (Tuple T → T) → List (Tuple T) → Type 0
  HasKey expr key xs = All (λ t. unwrap (eval ops expr t.field_vals) ≡ ok (key t)) xs

  -- The left tuples with the key of a right one.
  abbrev pub partners : List (Tuple T) → Tuple T → List (Tuple T)
  partners lefts r = passing (λ l. same (left_key l) (right_key r)) lefts

  -- For each right tuple, in order, its partners merged with it, in order.
  abbrev pub matches : List (Tuple T) → List (Tuple T) → List (Tuple T)
  matches lefts [] = []
  matches lefts (r ∷ rs) = map (λ l. merge l r) (partners lefts r) ++ matches lefts rs

  abbrev pub build : JoinMap T → List (Tuple T) → JoinMap T
  build m [] = m
  build m (x ∷ xs) = build (push_bucket same (left_key x) x m) xs

  pub read_left :
      (xs : List (Tuple T)) (m : JoinMap T)
      → HasKey left_expr left_key xs
      → fold_tuples on_left (add_tuple ops same on_left on_right left_expr) m xs ≡ ok (build m xs)
  unfolding add_tuple
  read_left [] m h = refl
  read_left (x ∷ xs) m (h, hs) = rw h (read_left xs (push_bucket same (left_key x) x m) hs)

  bucket-build :
      (k : T) (xs : List (Tuple T)) (m : JoinMap T)
      → or_empty (get_bucket same k (build m xs))
        ≡ or_empty (get_bucket same k m) ++ passing (λ l. same (left_key l) k) xs
  bucket-build k [] m = sym (append-nil (or_empty (get_bucket same k m)))
  bucket-build k (x ∷ xs) m = elim (Bool-cases (same (left_key x) k)) [
    | inl e ↦
        bucket-build k xs (push_bucket same (left_key x) x m)
        ∙ rw (bucket-push same eq k (left_key x) x m, e)
            (append_assoc (or_empty (get_bucket same k m)) (x ∷ [])
              (passing (λ l. same (left_key l) k) xs))
    | inr e ↦
        bucket-build k xs (push_bucket same (left_key x) x m)
        ∙ rw (bucket-push same eq k (left_key x) x m, e) refl
  ]

  module _ (lefts : List (Tuple T)) (first_right : R) (rights : List (Tuple T))
      (cr : IsPass on_right first_right rights) where
    -- An open join with its hash map built.
    abbrev pub at_tuple : L → R → Option (Tuple T) → ℕ → HashEqJoin T L R
    at_tuple l r current idx = record {
      left_expr = left_expr;
      right_expr = right_expr;
      left_child = l;
      right_child = r;
      is_open = true;
      join_map = build [] lefts;
      current_tuple = current;
      current_idx = idx;
    }

    -- The item at `idx` is that of the partners.
    item_lem :
        (t : Tuple T) (idx : ℕ)
        → item_of (get_bucket same (right_key t) (build [] lefts)) idx
          ≡ get_elem? (partners lefts t) idx
    unfolding get_bucket
    item_lem t idx =
        item_of-or_empty (get_bucket same (right_key t) (build [] lefts)) idx
        ∙ ap (λ l. get_elem? l idx) (bucket-build (right_key t) lefts [])

    -- What is to come while `t` is the current tuple and `todo` its partners that are left.
    abbrev pub to_come : Tuple T → List (Tuple T) → List (Tuple T) → List (Tuple T)
    to_come t todo rs = map (λ l. merge l t) todo ++ matches lefts rs

    -- The first partners of `t`, up to `idx`, have been given.
    abbrev pub IsAt : Tuple T → ℕ → List (Tuple T) → Type 0
    IsAt t idx todo =
        (before : List (Tuple T)) × (before ++ todo ≡ partners lefts t) × (length before ≡ idx)

    item_next :
        (t x : Tuple T) (todo : List (Tuple T)) (idx : ℕ)
        → IsAt t idx (x ∷ todo)
        → (item_of (get_bucket same (right_key t) (build [] lefts)) idx ≡ some x)
          × IsAt t (idx + 1) todo
    item_next t x todo idx (before, e, n) = (
      item_lem t idx ∙ rw (← e, ← n) (get-middle before x todo),
      (
        before ++ (x ∷ []),
        append_assoc before (x ∷ []) todo ∙ e,
        omega (arith, length-append before (x ∷ []), n),
      ),
    )

    item_last :
        (t : Tuple T) (idx : ℕ)
        → IsAt t idx []
        → item_of (get_bucket same (right_key t) (build [] lefts)) idx ≡ none
    item_last t idx (before, e, n) =
        item_lem t idx ∙ rw (← e, ← n) (rw (append-nil before) (get-end before))

    next_tuple_round :
        (f : ℕ) (t : Tuple T) (idx : ℕ) (l : L) (r : R) {o : Option (Tuple T)}
        → unwrap (eval ops right_expr t.field_vals) ≡ ok (right_key t)
        → item_of (get_bucket same (right_key t) (build [] lefts)) idx ≡ o
        → next_tuple ops same on_left on_right (suc f) (at_tuple l r (some t) idx)
          ≡ item_or o t (at_tuple l r (some t) idx) (
              on_right.next r >>= λ (current, r').
              next_tuple ops same on_left on_right f (at_tuple l r' current 0))
    unfolding next_tuple
    next_tuple_round f t idx l r k e = rw k (
        ap
          (λ o. item_or o t (at_tuple l r (some t) idx) (
            on_right.next r >>= λ (current, r').
            next_tuple ops same on_left on_right f (at_tuple l r' current 0)))
          e)

    pub next_tuple_yields :
        (f : ℕ) (t : Tuple T) (todo rs : List (Tuple T)) (idx : ℕ) (l : L) (r : R) (y : Tuple T)
        (ys : List (Tuple T))
        → length rs < f
        → cr.left rs r
        → HasKey right_expr right_key (t ∷ rs)
        → IsAt t idx todo
        → to_come t todo rs ≡ y ∷ ys
        → (t' : Tuple T) × (todo' : List (Tuple T)) × (rs' : List (Tuple T)) × (idx' : ℕ) × (r' : R)
          × (next_tuple ops same on_left on_right f (at_tuple l r (some t) idx)
              ≡ ok (some y, at_tuple l r' (some t') idx'))
          × (length rs' ≤ length rs)
          × cr.left rs' r'
          × HasKey right_expr right_key (t' ∷ rs')
          × IsAt t' idx' todo'
          × (to_come t' todo' rs' ≡ ys)
    next_tuple_yields zero t todo rs idx l r y ys h a k at e = absurd (omega (arith, h))
    next_tuple_yields (suc f) t (x ∷ todo) rs idx l r y ys h a k at e =
        let (found, at') = item_next t x todo idx at in
        let head : merge x t ≡ y = cc in
        let tail : to_come t todo rs ≡ ys = cc in
        (
          t,
          todo,
          rs,
          idx + 1,
          r,
          rw (next_tuple_round f t idx l r k.0 found, head) refl,
          omega arith,
          a,
          k,
          at',
          tail,
        )
    next_tuple_yields (suc f) t [] [] idx l r y ys h a k at e = absurd cc
    next_tuple_yields (suc f) t [] (x ∷ rs) idx l r y ys h a k at e =
        let (r₁, ran₁, a₁) = cr.yields x rs r a in
        let (t', todo', rs', idx', r', ran, short, a', k', at', e') =
          next_tuple_yields f x (partners lefts x) rs 0 l r₁ y ys (omega (arith, h)) a₁ k.1
            ([], refl, refl) e in
        (
          t',
          todo',
          rs',
          idx',
          r',
          rw (next_tuple_round f t idx l r k.0 (item_last t idx at), ran₁) ran,
          omega (arith, short),
          a',
          k',
          at',
          e',
        )

    pub stop_none :
        (f : ℕ) (l : L) (r : R)
        → next_tuple ops same on_left on_right (suc f) (at_tuple l r none 0)
          ≡ ok (none, at_tuple l r none 0)
    unfolding next_tuple
    stop_none f l r = refl

    pub next_tuple_ends :
        (f : ℕ) (t : Tuple T) (todo rs : List (Tuple T)) (idx : ℕ) (l : L) (r : R)
        → length rs + 1 < f
        → cr.left rs r
        → HasKey right_expr right_key (t ∷ rs)
        → IsAt t idx todo
        → to_come t todo rs ≡ []
        → (r' : R) × (next_tuple ops same on_left on_right f (at_tuple l r (some t) idx)
            ≡ ok (none, at_tuple l r' none 0))
          × cr.left [] r'
    next_tuple_ends zero t todo rs idx l r h a k at e = absurd (omega (arith, h))
    next_tuple_ends (suc zero) t todo rs idx l r h a k at e = absurd (omega (arith, h))
    next_tuple_ends (suc (suc f)) t (x ∷ todo) rs idx l r h a k at e = absurd cc
    next_tuple_ends (suc (suc f)) t [] [] idx l r h a k at e =
        let (r₁, ran₁, a₁) = cr.ends r a in
        (
          r₁,
          rw (next_tuple_round (suc f) t idx l r k.0 (item_last t idx at), ran₁) (stop_none f l r₁),
          a₁,
        )
    next_tuple_ends (suc (suc f)) t [] (x ∷ rs) idx l r h a k at e =
        let (r₁, ran₁, a₁) = cr.yields x rs r a in
        let (r', ran, a') =
          next_tuple_ends (suc f) x (partners lefts x) rs 0 l r₁ (omega (arith, h)) a₁ k.1
            ([], refl, refl) e in
        (r', rw (next_tuple_round (suc f) t idx l r k.0 (item_last t idx at), ran₁) ran, a')
