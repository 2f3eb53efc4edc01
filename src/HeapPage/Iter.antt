-- ===== src/HeapPage/Iter.antt =====
-- heap_page.rs: `HeapPageIter`.
use crusty_db.Prelude.{ℕ, zero, suc, ◌+◌, ◌-◌, List, [], ◌∷◌, Option, none, some, OrPanic, ◌>>=◌}
use crusty_db.Bytes.{Array}
use crusty_db.HeapPage.Header.{get_num_slots}
use crusty_db.HeapPage.Values.{get_value}

-- `HeapPageIter::next`: `n` slots are left from `current_slot` on. The result is the item and the
-- new `current_slot`.
unfoldable pub next_from : Array → ℕ → ℕ → OrPanic (Option (List ℕ × ℕ) × ℕ)
next_from p zero current = some (none, current)
next_from p (suc n) current = do
  value ← get_value p current
  let rest = next_from p n (current + 1)
  elim value [ none ↦ rest | some bytes ↦ some (some (bytes, current), current + 1) ]

unfoldable pub next : Array → ℕ → OrPanic (Option (List ℕ × ℕ) × ℕ)
next p current = next_from p (get_num_slots p - current) current

-- The iterator run to its end, on `n` calls of `next` at most.
unfoldable pub collect : Array → ℕ → ℕ → OrPanic (List (List ℕ × ℕ))
collect p zero current = some []
collect p (suc n) current = do
  (item, current') ← next p current
  let rest = collect p n current'
  elim item [ none ↦ some [] | some x ↦ do xs ← rest; some (x ∷ xs) ]
