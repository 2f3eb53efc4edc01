-- ===== src/Query/Joining.antt =====
-- cross_join.rs: `CrossJoin` streams the pairs of its children's tuples.
use crusty_db.Prelude.{
  ℕ, zero, suc, ◌+◌, ◌-◌, ◌≤◌, ◌<◌, ◌≡◌, refl, ◌⊎◌, inl, inr, true, false, List, [], ◌∷◌, ◌++◌,
  Option, none, some, length, arith, map,
}
use crusty_db.Query.{ok, Tuple, merge, OpIterator}
use crusty_db.Query.Streams.{IsStream}
use crusty_db.Query.CrossJoin.{
  CrossJoin, new, next_pair, configure, open_op, next, close, rewind, cross_join,
}

-- Each tuple of the first list merged with each of the second, in order.
abbrev pub pairs : {T : Type 0} → List (Tuple T) → List (Tuple T) → List (Tuple T)
pairs [] ys = []
pairs (x ∷ xs) ys = map (λ y. merge x y) ys ++ pairs xs ys

module _ {T L R : Type 0} (on_left : OpIterator T L) (on_right : OpIterator T R) (first_left : L)
    (first_right : R) (lefts rights : List (Tuple T)) (cl : IsStream on_left first_left lefts)
    (cr : IsStream on_right first_right rights) where
  -- What is to come while `t` is the current tuple.
  abbrev to_come : Tuple T → List (Tuple T) → List (Tuple T) → List (Tuple T)
  to_come t ls rs = map (λ r. merge t r) rs ++ pairs ls rights

  abbrev at_tuple : L → R → Option (Tuple T) → CrossJoin T L R
  at_tuple l r current = record {
    left_child = l;
    right_child = r;
    is_open = true;
    current_tuple = current;
  }

  next_pair_yields :
      (f : ℕ) (t : Tuple T) (ls rs : List (Tuple T)) (l : L) (r : R) (y : Tuple T)
      (ys : List (Tuple T))
      → length ls < f
      → cl.left ls l
      → cr.left rs r
      → to_come t ls rs ≡ y ∷ ys
      → (t' : Tuple T) × (ls' : List (Tuple T)) × (rs' : List (Tuple T)) × (l' : L) × (r' : R)
        × (next_pair on_left on_right f (at_tuple l r (some t))
            ≡ ok (some y, at_tuple l' r' (some t')))
        × cl.left ls' l'
        × cr.left rs' r'
        × (to_come t' ls' rs' ≡ ys)
        × (length ls' ≤ length ls)
  unfolding next_pair
  next_pair_yields zero t ls rs l r y ys h a b e = absurd (omega (arith, h))
  next_pair_yields (suc f) t ls (x ∷ rs) l r y ys h a b e =
      let (r₁, ran, b₁) = cr.yields x rs r b in
      let head : merge t x ≡ y = cc in
      let tail : to_come t ls rs ≡ ys = cc in
      (t, ls, rs, l, r₁, rw (ran, head) refl, a, b₁, tail, omega arith)
  next_pair_yields (suc f) t [] [] l r y ys h a b e = absurd cc
  next_pair_yields (suc f) t (x ∷ ls) [] l r y ys h a b e =
      let (r₁, ran₁, b₁) = cr.ends r b in
      let (r₂, ran₂, b₂) = cr.rewinds [] r₁ b₁ in
      let (l₁, ran₃, a₁) = cl.yields x ls l a in
      let (t', ls', rs', l', r', ran, a', b', rest, shorter) =
        next_pair_yields f x ls rights l₁ r₂ y ys (omega (arith, h)) a₁ b₂ e in
      (t', ls', rs', l', r', rw (ran₁, ran₂, ran₃, ran) refl, a', b', rest, omega (arith, shorter))

  next_pair_ends :
      (f : ℕ) (t : Tuple T) (ls rs : List (Tuple T)) (l : L) (r : R)
      → length ls + 1 < f
      → cl.left ls l
      → cr.left rs r
      → to_come t ls rs ≡ []
      → (l' : L) × (r' : R) × (next_pair on_left on_right f (at_tuple l r (some t))
          ≡ ok (none, at_tuple l' r' none))
        × cl.left [] l'
        × cr.left rights r'
  unfolding next_pair
  next_pair_ends zero t ls rs l r h a b e = absurd (omega (arith, h))
  next_pair_ends (suc zero) t ls rs l r h a b e = absurd (omega (arith, h))
  next_pair_ends (suc (suc f)) t ls (x ∷ rs) l r h a b e = absurd cc
  next_pair_ends (suc (suc f)) t [] [] l r h a b e =
      let (r₁, ran₁, b₁) = cr.ends r b in
      let (r₂, ran₂, b₂) = cr.rewinds [] r₁ b₁ in
      let (l₁, ran₃, a₁) = cl.ends l a in (l₁, r₂, rw (ran₁, ran₂, ran₃) refl, a₁, b₂)
  next_pair_ends (suc (suc f)) t (x ∷ ls) [] l r h a b e =
      let (r₁, ran₁, b₁) = cr.ends r b in
      let (r₂, ran₂, b₂) = cr.rewinds [] r₁ b₁ in
      let (l₁, ran₃, a₁) = cl.yields x ls l a in
      let (l', r', ran, a', b') =
        next_pair_ends (suc f) x ls rights l₁ r₂ (omega (arith, h)) a₁ b₂ e in
      (l', r', rw (ran₁, ran₂, ran₃, ran) refl, a', b')

  -- An open join with `ys` to come.
  abbrev Left : List (Tuple T) → CrossJoin T L R → Type 0
  Left ys j =
      (ls : List (Tuple T)) × (rs : List (Tuple T)) × (j.is_open ≡ true)
      × cl.left ls j.left_child
      × cr.left rs j.right_child
      × (length ls ≤ length lefts)
      × ((j.current_tuple ≡ none) × (ys ≡ []) × (ls ≡ [])
          ⊎ ((t : Tuple T) × (j.current_tuple ≡ some t) × (to_come t ls rs ≡ ys)))

  first_tuple :
      (xs : List (Tuple T)) (l : L) (r : R)
      → cl.left xs l
      → cr.left rights r
      → length xs ≤ length lefts
      → (current : Option (Tuple T)) × (l' : L) × (on_left.next l ≡ ok (current, l'))
        × Left (pairs xs rights) (at_tuple l' r current)
  first_tuple [] l r a b h =
      let (l₁, ran, a₁) = cl.ends l a in
      (none, l₁, ran, ([], rights, refl, a₁, b, omega arith, inl (refl, refl, refl)))
  first_tuple (x ∷ xs) l r a b h =
      let (l₁, ran, a₁) = cl.yields x xs l a in
      (some x, l₁, ran, (xs, rights, refl, a₁, b, omega (arith, h), inr (x, refl, refl)))

  module _ (fuel : ℕ) (enough : length lefts + 1 < fuel) where
    -- An open join is `at_tuple` of its parts.
    opened :
        (j : CrossJoin T L R)
        → j.is_open ≡ true
        → j ≡ at_tuple j.left_child j.right_child j.current_tuple
    opened j o = λ i. record {
      left_child = j.left_child;
      right_child = j.right_child;
      is_open = o i;
      current_tuple = j.current_tuple;
    }

    yield_pair :
        (y : Tuple T) (ys : List (Tuple T)) (j : CrossJoin T L R)
        → Left (y ∷ ys) j
        → (j' : CrossJoin T L R) × (next on_left on_right fuel j ≡ ok (some y, j')) × Left ys j'
    unfolding next
    yield_pair y ys j (ls, rs, o, a, b, h, inl (gone, e, e')) = absurd cc
    yield_pair y ys j (ls, rs, o, a, b, h, inr (t, cur, e)) =
        let (t', ls', rs', l', r', ran, a', b', rest, shorter) =
          next_pair_yields fuel t ls rs j.left_child j.right_child y ys (omega (arith, h, enough)) a
            b e in
        (
          at_tuple l' r' (some t'),
          rw (opened j o, cur) ran,
          (ls', rs', refl, a', b', omega (arith, h, shorter), inr (t', refl, rest)),
        )

    stop_none :
        (f : ℕ) (l : L) (r : R)
        → next_pair on_left on_right (suc f) (at_tuple l r none) ≡ ok (none, at_tuple l r none)
    unfolding next_pair
    stop_none f l r = refl

    end_pairs :
        (j : CrossJoin T L R)
        → Left [] j
        → (j' : CrossJoin T L R) × (next on_left on_right fuel j ≡ ok (none, j')) × Left [] j'
    unfolding next
    end_pairs j (ls, rs, o, a, b, h, inl (gone, e, e')) =
        let f : fuel ≡ suc (fuel - 1) = omega (arith, enough) in
        (
          at_tuple j.left_child j.right_child none,
          rw (opened j o, gone, f) (stop_none (fuel - 1) j.left_child j.right_child),
          (ls, rs, refl, a, b, h, inl (refl, e, e')),
        )
    end_pairs j (ls, rs, o, a, b, h, inr (t, cur, e)) =
        let (l', r', ran, a', b') =
          next_pair_ends fuel t ls rs j.left_child j.right_child (omega (arith, h, enough)) a b e in
        (
          at_tuple l' r' none,
          rw (opened j o, cur) ran,
          ([], rights, refl, a', b', omega arith, inl (refl, refl, refl)),
        )

-- Over children that stream `lefts` and `rights` from their first states, the right one able to be rewound, `CrossJoin`
-- streams each tuple of `lefts` merged with each of `rights`, in order, where each call of `next`
-- has at least two rounds more than `lefts` has tuples.
pub cross_join-IsStream :
    {T L R : Type 0} (on_left : OpIterator T L) (on_right : OpIterator T R) (first_left : L)
    (first_right : R) (lefts rights : List (Tuple T)) (fuel : ℕ)
    → IsStream on_left first_left lefts
    → IsStream on_right first_right rights
    → length lefts + 1 < fuel
    → IsStream (cross_join on_left on_right fuel) (new first_left first_right) (pairs lefts rights)
unfolding new configure open_op close rewind
cross_join-IsStream {T} {L} {R} on_left on_right first_left first_right lefts rights fuel cl cr
      enough =
    record {
      ready = λ j. (j.is_open ≡ false) × cl.ready j.left_child × cr.ready j.right_child;
      left = Left on_left on_right first_left first_right lefts rights cl cr;
      starts = (refl, cl.starts, cr.starts);
      configures = λ j (o, a, b). (o, cl.configures j.left_child a, cr.configures j.right_child b);
      opens = λ j (o, a, b).
          let (l, ran₁, a₁) = cl.opens j.left_child a in
          let (r, ran₂, b₁) = cr.opens j.right_child b in
          let (current, l', ran₃, more) =
            first_tuple on_left on_right first_left first_right lefts rights cl cr lefts l r a₁ b₁
              (omega arith) in
          (_, rw (o, ran₁, ran₂, ran₃) refl, more);
      stays_open = λ ys j (ls, rs, o, a, b, h, cur). (j, rw o refl, (ls, rs, o, a, b, h, cur));
      yields = λ y ys j more.
          yield_pair on_left on_right first_left first_right lefts rights cl cr fuel enough y ys j
            more;
      ends = λ j more.
          end_pairs on_left on_right first_left first_right lefts rights cl cr fuel enough j more;
      rewinds = λ ys j (ls, rs, o, a, b, h, cur).
          let (l, ran₁, a₁) = cl.rewinds ls j.left_child a in
          let (r, ran₂, b₁) = cr.rewinds rs j.right_child b in
          let (current, l', ran₃, more) =
            first_tuple on_left on_right first_left first_right lefts rights cl cr lefts l r a₁ b₁
              (omega arith) in
          (
            record { left_child = l'; right_child = r; is_open = true; current_tuple = current },
            rw (ran₁, ran₂, ran₃, o) refl,
            more,
          );
      closes = λ ys j (ls, rs, o, a, b, h, cur).
          let (l, ran₁) = cl.closes ls j.left_child a in
          let (r, ran₂) = cr.closes rs j.right_child b in
          (record j { left_child = l; right_child = r; is_open = false }, rw (ran₁, ran₂) refl);
    }
