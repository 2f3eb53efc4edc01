-- ===== src/HeapPage/Collecting.antt =====
-- heap_page.rs, `HeapPageIter`: what the iterator yields.
use crusty_db.Prelude.{
  ℕ, zero, suc, ◌+◌, ◌-◌, ◌≤◌, ◌≡◌, refl, sym, ◌∙◌, List, [], ◌∷◌, none, some, arith, Option-cases,
  inl, inr,
}
use crusty_db.Bytes.{Array}
use crusty_db.HeapPage.Header.{get_num_slots}
use crusty_db.HeapPage.Iter.{next_from, next, collect}
use crusty_db.HeapPage.Layout.{layout}
use crusty_db.HeapPage.Wf.{IsPacked}
use crusty_db.HeapPage.Reading.{contents, get_value-contents}

-- The values of `n` slots from slot `i` on, in the slots' order, each with its slot.
abbrev pub items : Array → ℕ → ℕ → List (List ℕ × ℕ)
items p zero i = []
items p (suc n) i = elim (contents p i) [
  | none ↦ items p n (i + 1)
  | some bytes ↦ (bytes, i) ∷ items p n (i + 1)
]

module _ (p : Array) (v : IsPacked (layout p)) where
  left : (k i : ℕ) → i + k ≡ get_num_slots p → next p i ≡ next_from p k i
  unfolding next
  left k i e = let d : get_num_slots p - i ≡ k = omega (arith, e) in rw d refl

  collect-next : (f i j : ℕ) → next p i ≡ next p j → collect p (suc f) i ≡ collect p (suc f) j
  unfolding collect
  collect-next f i j e = rw e refl

  skips : (k i : ℕ) → i + suc k ≡ get_num_slots p → contents p i ≡ none → next p i ≡ next p (i + 1)
  unfolding next_from
  skips k i e free =
      left (suc k) i e
      ∙ rw (get_value-contents p i v, free) (sym (left k (i + 1) (omega (arith, e))))

  yields :
      (k i : ℕ) (bytes : List ℕ)
      → i + suc k ≡ get_num_slots p
      → contents p i ≡ some bytes
      → next p i ≡ some (some (bytes, i), i + 1)
  unfolding next_from
  yields k i bytes e live = left (suc k) i e ∙ rw (get_value-contents p i v, live) refl

  collect-items :
      (k i f : ℕ) → i + k ≡ get_num_slots p → k ≤ f → collect p (suc f) i ≡ some (items p k i)
  unfolding collect next_from
  collect-items zero i f e h = rw (left zero i e) refl
  collect-items (suc k) i zero e h = absurd (omega (arith, h))
  collect-items (suc k) i (suc f) e h = elim (Option-cases (contents p i)) [
    | inl free ↦
        rw (items, free)
          (collect-next (suc f) i (i + 1) (skips k i e free)
            ∙ collect-items k (i + 1) (suc f) (omega (arith, e)) (omega (arith, h)))
    | inr (bytes, live) ↦
        rw
          (
            items,
            live,
            yields k i bytes e live,
            collect-items k (i + 1) f (omega (arith, e)) (omega (arith, h)),
          )
          refl
  ]

-- On a page whose values are packed, the iterator run to its end, which takes one call of `next`
-- more than there are slots at most, does not panic and yields the values of all slots that have
-- one, each once with its slot, in the slots' order.
pub collect_lem :
    (p : Array) (f : ℕ)
    → IsPacked (layout p)
    → get_num_slots p ≤ f
    → collect p (suc f) 0 ≡ some (items p (get_num_slots p) 0)
collect_lem p f v h = collect-items p v (get_num_slots p) 0 f (omega arith) h
