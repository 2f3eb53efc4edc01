-- ===== src/HeapPage/Compacting.antt =====
-- `compact_page` as a whole: what it keeps and what it gains.
use crusty_db.Prelude.{
  ℕ, zero, suc, ◌+◌, ◌-◌, ◌*◌, ◌<◌, ◌≤◌, ◌≡◌, ◌≢◌, refl, ◌∙◌, ap, ◌⊎◌, inl, inr, List, [], ◌∷◌,
  none, some, ltb, leb, if◌then◌else◌, arith, Bool-cases, lt→ltb, ◌&&◌,
}
use crusty_db.Bytes.{Array, slice}
use crusty_db.Bytes.Laws.{length-slice, slice-ext}
use crusty_db.HeapPage.Header.{
  get_num_slots, get_free_space_ptr, set_free_space_ptr, get_deleted_bytes, set_deleted_bytes,
  get_deleted_slot_count, put_u16,
}
use crusty_db.HeapPage.Space.{live_slots_from, repack, sort_by_length, compact_page}
use crusty_db.HeapPage.Layout.{Layout, layout, layout-set_free_space_ptr, layout-set_deleted_bytes}
use crusty_db.HeapPage.Wf.{IsPacked, total, total-next}
use crusty_db.HeapPage.Reading.{contents, contents_absent, read_offset, read_len}
use crusty_db.HeapPage.Sorting.{
  find, Distinct, sizes, Below, find-sort, sort-Distinct, sizes-sort, sort-Below,
}
use crusty_db.HeapPage.Repacking.{Repacked, repack_lem, Stacked-find, Stacked-apart}

-- The live slots among `n` from `i` on.
abbrev pub live : Array → ℕ → ℕ → List (ℕ × List ℕ)
live p zero i = []
live p (suc n) i =
    if ltb 0 ((layout p).len i)
    then (i, slice p ((layout p).offset i) ((layout p).len i)) ∷ live p n (i + 1)
    else live p n (i + 1)

module _ (p : Array) where
  find-live :
      (n i k : ℕ) → find k (live p n i) ≡ (if leb i k && ltb k (i + n) then contents p k else none)
  unfolding contents
  find-live zero i k = ground arith
  find-live (suc n) i k = ground (arith, find-live n (i + 1) k)

  find-live_below : (n i k : ℕ) → k < i → find k (live p n i) ≡ none
  find-live_below n i k h = ground (arith, find-live n i k)

  live-Distinct : (n i : ℕ) → Distinct (live p n i)
  live-Distinct zero i = tt
  live-Distinct (suc n) i = elim (Bool-cases (ltb 0 ((layout p).len i))) [
    | inl e ↦ rw e (find-live_below n (i + 1) i (omega arith), live-Distinct n (i + 1))
    | inr e ↦ rw e (live-Distinct n (i + 1))
  ]

  live-Below : (n i m : ℕ) → i + n ≤ m → Below m (live p n i)
  live-Below zero i m h = tt
  live-Below (suc n) i m h = elim (Bool-cases (ltb 0 ((layout p).len i))) [
    | inl e ↦ rw e (omega arith, live-Below n (i + 1) m (omega arith))
    | inr e ↦ rw e (live-Below n (i + 1) m (omega arith))
  ]

  sizes-live :
      (n i : ℕ) → sizes (live p n i) + total (layout p).len i ≡ total (layout p).len (i + n)
  sizes-live zero i = let e : i + 0 ≡ i = omega arith in rw e (omega arith)
  sizes-live (suc n) i =
      let e : i + suc n ≡ i + 1 + n = omega arith in
      rw e (
        ground (
          arith,
          sizes-live n (i + 1),
          total-next (layout p).len i,
          length-slice p ((layout p).offset i) ((layout p).len i),
        ))

  module _ (v : IsPacked (layout p)) where
    live_slots-live :
        (n i : ℕ) → i + n ≤ get_num_slots p → live_slots_from p n i ≡ some (live p n i)
    unfolding live_slots_from
    live_slots-live zero i h = refl
    live_slots-live (suc n) i h =
        rw (read_offset p i v (omega arith), read_len p i v (omega arith))
          (ground (arith, v.inside i, live_slots-live n (i + 1)))

-- The page `q` holds the values of `p`, and the bytes that `p` had counted as deleted are free.
pub record Compacted (p q : Array) : Type 0 where
  pub packed : IsPacked (layout q)
  pub slots : get_num_slots q ≡ get_num_slots p
  pub deleted : get_deleted_slot_count q ≡ get_deleted_slot_count p
  pub lens : (i : ℕ) → (layout q).len i ≡ (layout p).len i
  pub values : (i : ℕ) → contents q i ≡ contents p i
  pub front : (k : ℕ) → k < 16 → q k ≡ p k
  pub no_holes : get_deleted_bytes q ≡ 0
  pub gained : get_free_space_ptr q ≡ get_free_space_ptr p + get_deleted_bytes p

module _ (p : Array) (v : IsPacked (layout p)) where
  abbrev sorted : List (ℕ × List ℕ)
  sorted = sort_by_length (live p (get_num_slots p) 0)

  find-sorted : (k : ℕ) → find k sorted ≡ contents p k
  find-sorted k = ground (
    arith,
    find-sort k (live p (get_num_slots p) 0) (live-Distinct p (get_num_slots p) 0),
    find-live p (get_num_slots p) 0 k,
    contents_absent p k v,
  )

  sizes-sorted : sizes sorted ≡ total (layout p).len (get_num_slots p)
  sizes-sorted =
      let e : 0 + get_num_slots p ≡ get_num_slots p = omega arith in
      omega
        (arith, sizes-sort (live p (get_num_slots p) 0), rw e at (sizes-live p (get_num_slots p) 0))

  space :
      (total (layout p).len (get_num_slots p) + get_deleted_bytes p + get_free_space_ptr p ≡ 4096)
      × (24 + get_num_slots p * 4 ≤ get_free_space_ptr p)
  unfolding layout
  space = (v.accounted, v.header)

  repacked :
      (q : Array) × (repack p 4096 sorted ≡ some (q, 4096 - sizes sorted))
      × Repacked p q 4096 sorted
  repacked =
      repack_lem p 4096 sorted
        (sort-Below _ _ (live-Below p (get_num_slots p) 0 (get_num_slots p) (omega arith)))
        (sort-Distinct _ (live-Distinct p (get_num_slots p) 0)) (omega arith)
        (omega (arith, sizes-sorted, space))

  live_value :
      (k : ℕ)
      → 0 < (layout p).len k
      → find k sorted ≡ some (slice p ((layout p).offset k) ((layout p).len k))
  unfolding contents
  live_value k h = find-sorted k ∙ rw (lt→ltb 0 ((layout p).len k) h) refl

  module _ (q : Array) (r : Repacked p q 4096 sorted) where
    pub compacted : Array
    compacted = set_deleted_bytes (set_free_space_ptr q (4096 - sizes sorted)) 0

    layout-compacted : layout compacted ≡ record (layout p) {
      offset = (layout q).offset;
      fsp = 4096 - sizes sorted;
      deleted_bytes = 0;
    }
    unfolding compacted
    layout-compacted =
        layout-set_deleted_bytes (set_free_space_ptr q (4096 - sizes sorted)) 0 (omega arith)
        ∙ ap (λ (l : Layout). record l { deleted_bytes = 0 })
            (layout-set_free_space_ptr q (4096 - sizes sorted) (omega arith))
        ∙ ap (λ (l : Layout). record l { fsp = 4096 - sizes sorted; deleted_bytes = 0 }) r.same

    -- Where a live value went.
    moved :
        (k : ℕ)
        → 0 < (layout p).len k
        → (4096 - sizes sorted ≤ (layout q).offset k)
          × ((layout q).offset k + (layout p).len k ≤ 4096)
          × (slice q ((layout q).offset k) ((layout p).len k)
              ≡ slice p ((layout p).offset k) ((layout p).len k))
    moved k h = rw (length-slice p ((layout p).offset k) ((layout p).len k)) at (
        Stacked-find q 4096 sorted k (slice p ((layout p).offset k) ((layout p).len k)) r.stacked
          (omega (arith, sizes-sorted, space)) (live_value k h))

    moved_apart :
        (i j : ℕ)
        → i ≢ j
        → 0 < (layout p).len i
        → 0 < (layout p).len j
        → ((layout q).offset i + (layout p).len i ≤ (layout q).offset j)
          ⊎ ((layout q).offset j + (layout p).len j ≤ (layout q).offset i)
    moved_apart i j d h k =
        rw
          (
            length-slice p ((layout p).offset i) ((layout p).len i),
            length-slice p ((layout p).offset j) ((layout p).len j),
          )
          at
          (Stacked-apart q 4096 sorted i j _ _ r.stacked (omega (arith, sizes-sorted, space)) d
            (live_value i h) (live_value j k))

    compacted-IsPacked : IsPacked (layout compacted)
    unfolding layout
    compacted-IsPacked = rw layout-compacted (record {
      header = omega (arith, sizes-sorted, space);
      top = omega arith;
      beyond = v.beyond;
      inside = λ i h. (omega (arith, moved i h), omega (arith, moved i h));
      apart = moved_apart;
      accounted = omega (arith, sizes-sorted, space);
    })

    compacted_outside : (k : ℕ) → 24 ≤ k → compacted k ≡ q k
    unfolding compacted set_deleted_bytes set_free_space_ptr put_u16
    compacted_outside k h = ground arith

    compacted_front : (k : ℕ) → k < 16 → compacted k ≡ q k
    unfolding compacted set_deleted_bytes set_free_space_ptr put_u16
    compacted_front k h = ground arith

    compacted_value :
        (k : ℕ)
        → 0 < (layout p).len k
        → slice compacted ((layout q).offset k) ((layout p).len k)
          ≡ slice p ((layout p).offset k) ((layout p).len k)
    compacted_value k h =
        slice-ext compacted q ((layout q).offset k) ((layout p).len k)
          (λ j a b. compacted_outside j (omega (arith, moved k h, sizes-sorted, space)))
        ∙ (moved k h).2

    compacted-contents : (k : ℕ) → contents compacted k ≡ contents p k
    unfolding contents
    compacted-contents k =
        let o : (layout compacted).offset k ≡ (layout q).offset k =
          ap (λ (l : Layout). l.offset k) layout-compacted in
        let n : (layout compacted).len k ≡ (layout p).len k =
          ap (λ (l : Layout). l.len k) layout-compacted in
        rw (o, n)
          (elim (Bool-cases (ltb 0 ((layout p).len k))) [
            | inl h ↦ rw h (ap some (compacted_value k (ground (arith, h))))
            | inr h ↦ rw h refl
          ])

    compacted-Compacted : Compacted p compacted
    unfolding layout
    compacted-Compacted = record {
      packed = compacted-IsPacked;
      slots = ap (λ (l : Layout). l.slots) layout-compacted;
      deleted = ap (λ (l : Layout). l.deleted_slots) layout-compacted;
      lens = λ i. ap (λ (l : Layout). l.len i) layout-compacted;
      values = compacted-contents;
      front = λ k a. compacted_front k a ∙ r.front k a;
      no_holes = ap (λ (l : Layout). l.deleted_bytes) layout-compacted;
      gained = ap (λ (l : Layout). l.fsp) layout-compacted ∙ omega (arith, sizes-sorted, space);
    }

-- On a page whose values are packed, `compact_page` does not panic; every slot has the value that
-- it had, no byte is a hole any more, and the free space pointer has gone up by the bytes that
-- were counted as deleted.
pub compact_page-Compacted :
    (p : Array) → IsPacked (layout p) → (q : Array) × (compact_page p ≡ some q) × Compacted p q
unfolding compact_page compacted
compact_page-Compacted p v =
    let (q, ran, r) = repacked p v in
    (
      compacted p v q r,
      rw (live_slots-live p v (get_num_slots p) 0 (omega arith), ran) refl,
      compacted-Compacted p v q r,
    )
