-- ===== src/Query/Keys.antt =====
-- The sort keys of src/queryexe/src/opiterator/sort.rs and sort_merge_join.rs.
use Prim.Native.Nat.{Ordering}
use crusty_db.Prelude.{Bool, true, List, [], ◌∷◌, ◌≡◌, refl, if◌then◌else◌, arith}
use crusty_db.Order.{opposite, is_le, and_then, IsOrder}
use crusty_db.Expr.Bytecode.{Operators, ByteCodeExpr, eval}
use crusty_db.Query.{Outcome, ok, ◌>>=◌, unwrap, Tuple}

-- The fields of a sort: an expression each, and whether it ascends.
abbrev pub SortFields : Type 0 → Type 0
SortFields T = List (ByteCodeExpr T × Bool)

unfoldable pub sort_key : {T : Type 0} → Operators T → SortFields T → Tuple T → Outcome (List T)
sort_key ops [] t = ok []
sort_key ops ((field, asc) ∷ fields) t = do
  v ← unwrap (eval ops field t.field_vals)
  vs ← sort_key ops fields t
  ok (v ∷ vs)

module _ {T : Type 0} (cmp : T → T → Ordering) where
  -- A key has a value for each field. An index past a key's end would panic; to be an order on all
  -- lists, the comparison puts the shorter list first there.
  unfoldable pub compare_keys : SortFields T → List T → List T → Ordering
  compare_keys [] a b = Ordering.eq
  compare_keys (f ∷ fields) [] [] = Ordering.eq
  compare_keys (f ∷ fields) [] (y ∷ b) = Ordering.lt
  compare_keys (f ∷ fields) (x ∷ a) [] = Ordering.gt
  compare_keys ((field, asc) ∷ fields) (x ∷ a) (y ∷ b) =
      and_then (if asc then cmp x y else cmp y x) (compare_keys fields a b)

  module _ (o : IsOrder cmp) where
    compare_keys-flips :
        (fields : SortFields T) (a b : List T)
        → compare_keys fields b a ≡ opposite (compare_keys fields a b)
    unfolding compare_keys
    compare_keys-flips [] a b = refl
    compare_keys-flips (f ∷ fields) [] [] = refl
    compare_keys-flips (f ∷ fields) [] (y ∷ b) = refl
    compare_keys-flips (f ∷ fields) (x ∷ a) [] = refl
    compare_keys-flips ((field, asc) ∷ fields) (x ∷ a) (y ∷ b) =
        ground (arith, compare_keys-flips fields a b, o.flips x y, o.flips y x)

    compare_keys_trans :
        (fields : SortFields T) (a b c : List T)
        → is_le (compare_keys fields a b) ≡ true
        → is_le (compare_keys fields b c) ≡ true
        → is_le (compare_keys fields a c) ≡ true
    unfolding compare_keys
    compare_keys_trans [] a b c h k = refl
    compare_keys_trans (f ∷ fields) [] [] c h k = k
    compare_keys_trans (f ∷ fields) [] (y ∷ b) [] h k = refl
    compare_keys_trans (f ∷ fields) [] (y ∷ b) (z ∷ c) h k = refl
    compare_keys_trans (f ∷ fields) (x ∷ a) [] c h k = absurd cc
    compare_keys_trans (f ∷ fields) (x ∷ a) (y ∷ b) [] h k = absurd cc
    compare_keys_trans ((field, asc) ∷ fields) (x ∷ a) (y ∷ b) (z ∷ c) h k = ground (
      arith,
      compare_keys_trans fields a b c,
      o.trans x y z,
      o.trans z y x,
      o.trans y z x,
      o.trans z x y,
      o.trans x z y,
      o.trans y x z,
      o.flips x y,
      o.flips y z,
      o.flips x z,
    )

    pub compare_keys-IsOrder : (fields : SortFields T) → IsOrder (compare_keys fields)
    compare_keys-IsOrder fields = record {
      flips = compare_keys-flips fields;
      trans = compare_keys_trans fields;
    }
