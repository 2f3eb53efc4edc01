-- ===== src/Query/Iterating.antt =====
-- tuple_iterator.rs: `TupleIterator` streams the tuples it is given.
use mathlib.Core.Path.{subst}
use crusty_db.Prelude.{
  ◌-◌, ◌≡◌, refl, ◌∙◌, ap, true, false, List, [], ◌∷◌, ◌++◌, some, ◌==◌, length, length-append,
  get_elem?, get-append, get-length, arith,
}
use crusty_db.Query.{Tuple}
use crusty_db.Query.Streams.{IsStream}
use crusty_db.Query.TupleIterator.{
  TupleIterator, reverse, new, configure, open_op, next, close, rewind, tuple_iterator,
}

module _ {A : Type 0} where
  pub length-reverse : (xs : List A) → length (reverse xs) ≡ length xs
  length-reverse [] = refl
  length-reverse (x ∷ xs) = omega (arith, length-append (reverse xs) (x ∷ []), length-reverse xs)

  -- The element that `n` others follow stands at `n` in the reversed list.
  pub get-reverse :
      (before : List A) (x : A) (after : List A)
      → get_elem? (reverse (before ++ (x ∷ after))) (length after) ≡ some x
  get-reverse [] x after =
      subst (λ n. get_elem? (reverse after ++ (x ∷ [])) n ≡ some x) (length-reverse after)
        (get-length (reverse after) x)
  get-reverse (b ∷ before) x after =
      get-append (reverse (before ++ (x ∷ after))) (b ∷ []) (length after) x
        (get-reverse before x after)

  append_assoc : (xs : List A) (y : A) (ys : List A) → (xs ++ (y ∷ [])) ++ ys ≡ xs ++ (y ∷ ys)
  append_assoc [] y ys = refl
  append_assoc (x ∷ xs) y ys = ap (λ l. x ∷ l) (append_assoc xs y ys)

-- From the state that `new` makes, which is configured to be rewound, a `TupleIterator` streams
-- its tuples in the order they were given in, although it keeps them in reverse.
pub tuple_iterator-IsStream :
    {T : Type 0} (all : List (Tuple T)) → IsStream (tuple_iterator {T = T}) (new all) all
unfolding new configure open_op next close rewind
tuple_iterator-IsStream {T} all = record {
  ready = λ s.
      (s.is_open ≡ false)
      × (s.will_rewind ≡ true)
      × (s.tuples ≡ reverse all)
      × (s.index ≡ length all);
  starts = (refl, refl, refl, refl);
  left = Left;
  configures = λ s (o, w, t, i). (o, refl, t, i);
  opens = λ s (o, w, t, i). (record s { is_open = true }, refl, (refl, w, t, i, ([], refl)));
  stays_open =
      λ xs s (o, w, t, i, more). (record s { is_open = true }, refl, (refl, w, t, i, more));
  yields = λ x xs s (o, w, t, i, (before, e)).
      let j : s.index - 1 ≡ length xs = omega (arith, i) in
      let found : get_elem? s.tuples (s.index - 1) ≡ some x =
        rw (t, j, ← e) (get-reverse before x xs) in
      let some_left : (s.index == 0) ≡ false = rw i (ground arith) in
      (
        record s { index = s.index - 1 },
        rw (o, w, some_left, found) refl,
        (o, w, t, j, (before ++ (x ∷ []), append_assoc before x xs ∙ e)),
      );
  ends = λ s (o, w, t, i, more). (s, rw (o, w, i) refl, (o, w, t, i, more));
  rewinds = λ xs s (o, w, t, i, more). (
    record s { index = length s.tuples },
    rw (o, w) refl,
    (o, w, t, rw t (length-reverse all), ([], refl)),
  );
  closes = λ xs s more. (_, refl);
}
  where
    Left : List (Tuple T) → TupleIterator T → Type 0
    Left xs s =
        (s.is_open ≡ true)
        × (s.will_rewind ≡ true)
        × (s.tuples ≡ reverse all)
        × (s.index ≡ length xs)
        × ((before : List (Tuple T)) × (before ++ xs ≡ all))
