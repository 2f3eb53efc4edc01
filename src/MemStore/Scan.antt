-- ===== src/MemStore/Scan.antt =====
-- The iterator over a container's values.
use crusty_db.Prelude.{
  ℕ, zero, suc, ◌+◌, ◌-◌, ◌<◌, ◌≤◌, ◌≡◌, refl, ◌∙◌, ap, ◌⊎◌, inl, inr, true, List, Option, none,
  some, OrPanic, arith, ltb, lt→ltb, Option-cases, ◌==◌, ==_iff, Bool-cases,
}
use crusty_db.Ids.{ValueId}
use crusty_db.MemStore.{ContainerMap, find, slot_of, ValueIterator, next, next_from}

-- The iterator before slot `i`.
abbrev pub iterator_at : ℕ → ContainerMap → ℕ → ℕ → ValueIterator
iterator_at c m max i = record { tracker = slot_of c i; max = max; table_map = m; current = i }

-- The first slot from `i` on with a value, among `n`; or none has one.
abbrev pub Gives :
    ℕ → ContainerMap → ℕ → ℕ → ℕ → OrPanic (ValueIterator × Option (List ℕ × ValueId)) → Type 0
Gives c m max n i result =
    (((j : ℕ) → i ≤ j → j < i + n → find m (slot_of c j) ≡ none)
      × (result ≡ some (iterator_at c m max (i + n), none)))
    ⊎ ((k : ℕ) × (v : List ℕ) × (i ≤ k)
        × (k < i + n)
        × ((j : ℕ) → i ≤ j → j < k → find m (slot_of c j) ≡ none)
        × (find m (slot_of c k) ≡ some v)
        × (result ≡ some (iterator_at c m max (k + 1), some (v, slot_of c (k + 1)))))

module _ (c : ℕ) (m : ContainerMap) (max : ℕ) where
  -- A slot from `i` on is `i` or a later one.
  from_next :
      {i : ℕ}
      → find m (slot_of c i) ≡ none
      → (j : ℕ) → i ≤ j
      → (i + 1 ≤ j → find m (slot_of c j) ≡ none)
      → find m (slot_of c j) ≡ none
  from_next {i = i} gone j le later = elim (Bool-cases (j == i)) [
    | inl q ↦ ap (λ x. find m (slot_of c x)) ((==_iff j i).0 q) ∙ gone
    | inr q ↦ later (ground (arith, q, le))
  ]

  next_from-Gives :
      (n i : ℕ) → i + n < 65536 → Gives c m max n i (next_from n (iterator_at c m max i))
  unfolding next_from
  next_from-Gives zero i b = inl (
    (λ j le lt. absurd (omega (arith, le, lt))),
    ap (λ x. some (iterator_at c m max x, none)) (omega arith),
  )
  next_from-Gives (suc n) i b = elim (Option-cases (find m (slot_of c i))) [
    | inl gone ↦
        rw (next_from, fits, gone) (skip gone (next_from-Gives n (i + 1) (omega (arith, b))))
    | inr (v, e) ↦ inr (
      i,
      v,
      omega arith,
      omega arith,
      (λ j le lt. absurd (omega (arith, le, lt))),
      e,
      rw (next_from, fits, e) refl,
    )
  ]
    where
      fits : ltb (i + 1) 65536 ≡ true
      fits = lt→ltb (i + 1) 65536 (omega (arith, b))

      skip :
          {result : OrPanic (ValueIterator × Option (List ℕ × ValueId))}
          → find m (slot_of c i) ≡ none
          → Gives c m max n (i + 1) result
          → Gives c m max (suc n) i result
      skip gone (inl (none_there, e)) = inl (
        λ j le lt. from_next gone j le (λ le'. none_there j le' (omega (arith, lt))),
        e ∙ ap (λ x. some (iterator_at c m max x, none)) (omega arith),
      )
      skip gone (inr (k, v, le, lt, before, there, e)) = inr (
        k,
        v,
        omega (arith, le),
        omega (arith, lt),
        (λ j le' lt'. from_next gone j le' (λ le''. before j le'' lt')),
        there,
        e,
      )

  -- From slot 0 or later, and with fewer than 65535 slots given out: `next` gives the value of the
  -- first slot from the iterator's on that has one, and the iterator goes on after it, but the id
  -- that comes with the value is that of the slot after it; or no such slot has a value, `next`
  -- gives none, and the iterator is at its end.
  pub next-Gives :
      (i : ℕ)
      → max < 65535
      → i ≤ max + 1
      → Gives c m max (max + 1 - i) i (next (iterator_at c m max i))
  unfolding next
  next-Gives i b le = next_from-Gives (max + 1 - i) i (omega (arith, b, le))
