-- ===== src/HeapPage/Writing.antt =====
-- `write_value_at_slot`: a value goes into a free slot, after a compaction if the gap is too small.
use native.Mathlib.Decide.{dec_lt}
use crusty_db.Prelude.{
  ℕ, ◌+◌, ◌-◌, ◌*◌, ◌<◌, ◌≤◌, ◌≡◌, refl, ◌∙◌, ap, inl, inr, List, some, ◌==◌, if◌then◌else◌, length,
  arith, Bool-cases, le→leb, lt→ltb, ltb-false,
}
use crusty_db.Bytes.{Array, slice, copy}
use crusty_db.Bytes.Laws.{slice-ext, copy_outside, slice-copy_self}
use crusty_db.HeapPage.Header.{
  get_num_slots, get_free_space_ptr, set_free_space_ptr, get_deleted_bytes, get_header_size,
  put_u16, write_u16,
}
use crusty_db.HeapPage.Space.{gap, compact_page, write_value_at_slot, store_below}
use crusty_db.HeapPage.Layout.{
  Layout, layout, update, layout-copy, layout-set_free_space_ptr, layout-put_offset, layout-put_len,
}
use crusty_db.HeapPage.Wf.{IsPacked, written, written-IsPacked}
use crusty_db.HeapPage.Reading.{contents, contents-frame}
use crusty_db.HeapPage.Freeing.{Becomes, value, contents-value}
use crusty_db.HeapPage.Compacting.{Compacted, compact_page-Compacted}

module _ (p : Array) (s : ℕ) (bytes : List ℕ) where
  abbrev below : ℕ
  below = get_free_space_ptr p - length bytes

  moved_ptr : Array
  moved_ptr = set_free_space_ptr (copy p below bytes) below

  pointed : Array
  pointed = put_u16 moved_ptr (24 + s * 4) below

  -- The page with the value below the pointer.
  pub stored : Array
  stored = put_u16 pointed (24 + s * 4 + 2) (length bytes)

  module _ (v : IsPacked (layout p)) (h : s < get_num_slots p) (free : (layout p).len s ≡ 0)
      (fits : 24 + get_num_slots p * 4 + length bytes ≤ get_free_space_ptr p) where
    ptr_top : get_free_space_ptr p ≤ 4096
    unfolding layout
    ptr_top = v.top

    layout-moved_ptr : layout moved_ptr ≡ record (layout p) { fsp = below }
    unfolding moved_ptr
    layout-moved_ptr =
        layout-set_free_space_ptr (copy p below bytes) below (omega (arith, ptr_top))
        ∙ ap (λ (l : Layout). record l { fsp = below }) (layout-copy p below bytes (omega arith))

    moved_ptr_slots : get_num_slots moved_ptr ≡ get_num_slots p
    unfolding layout
    moved_ptr_slots = ap (λ (l : Layout). l.slots) layout-moved_ptr

    layout-pointed :
        layout pointed
        ≡ record (layout p) { fsp = below; offset = update (layout p).offset s below }
    unfolding pointed
    layout-pointed =
        layout-put_offset moved_ptr s below (rw moved_ptr_slots h) (omega (arith, ptr_top))
        ∙ ap (λ (l : Layout). record l { offset = update l.offset s below }) layout-moved_ptr

    pointed_slots : get_num_slots pointed ≡ get_num_slots p
    unfolding layout
    pointed_slots = ap (λ (l : Layout). l.slots) layout-pointed

    layout-stored : layout stored ≡ written (layout p) s (length bytes)
    unfolding stored layout
    layout-stored =
        layout-put_len pointed s (length bytes) (rw pointed_slots h) (omega (arith, ptr_top))
        ∙ ap (λ (l : Layout). record l { len = update l.len s (length bytes) }) layout-pointed

    stored_outside : (k : ℕ) → get_free_space_ptr p ≤ k → stored k ≡ p k
    unfolding stored pointed moved_ptr set_free_space_ptr put_u16
    stored_outside k a = ground (arith, copy_outside p below bytes k)

    stored_inside : (k : ℕ) → below ≤ k → stored k ≡ copy p below bytes k
    unfolding stored pointed moved_ptr set_free_space_ptr put_u16
    stored_inside k a = ground arith

    stored_len : (i : ℕ) → (layout stored).len i ≡ update (layout p).len s (length bytes) i
    stored_len i = ap (λ (l : Layout). l.len i) layout-stored

    stored_offset : (i : ℕ) → (layout stored).offset i ≡ update (layout p).offset s below i
    unfolding layout
    stored_offset i = ap (λ (l : Layout). l.offset i) layout-stored

    stored_self : slice stored below (length bytes) ≡ bytes
    stored_self =
        slice-ext stored (copy p below bytes) below (length bytes) (λ k a b. stored_inside k a)
        ∙ slice-copy_self p below bytes

    above_ptr : (i k : ℕ) → 0 < (layout p).len i → (layout p).offset i ≤ k → stored k ≡ p k
    unfolding layout
    above_ptr i k live a = stored_outside k (omega (arith, v.inside i live))

    stored_values : (i : ℕ) → contents stored i ≡ (if i == s then value bytes else contents p i)
    stored_values i = elim (Bool-cases (i == s)) [
      | inl same ↦ rw same (
          contents-value stored i below bytes (stored_offset i ∙ rw same refl)
            (stored_len i ∙ rw same refl) stored_self)
      | inr other ↦ rw other (
          contents-frame p stored i (stored_offset i ∙ rw other refl) (stored_len i ∙ rw other refl)
            (λ k a b live. above_ptr i k live a))
    ]

    stored_front : (k : ℕ) → k < 16 → stored k ≡ p k
    unfolding stored pointed moved_ptr set_free_space_ptr put_u16
    stored_front k a =
        let o : copy p below bytes k ≡ p k = copy_outside p below bytes k (inl (omega arith)) in
        ground (arith, o)

    stored-Becomes : Becomes p stored s bytes
    unfolding layout
    stored-Becomes = record {
      packed = rw layout-stored (written-IsPacked (layout p) s v (length bytes) h free fits);
      slots = ap (λ (l : Layout). l.slots) layout-stored;
      deleted = ap (λ (l : Layout). l.deleted_slots) layout-stored;
      lens = stored_len;
      values = stored_values;
      front = stored_front;
    }

    -- The steps after the compaction.
    pub store_below_lem : store_below p (24 + s * 4) bytes ≡ some stored
    unfolding store_below write_u16 stored pointed moved_ptr
    store_below_lem =
        rw
          (
            le→leb (length bytes) (get_free_space_ptr p) (omega arith),
            le→leb (get_free_space_ptr p) 4096 ptr_top,
            le→leb (24 + s * 4 + 2) 4096 (omega (arith, ptr_top)),
            le→leb (24 + s * 4 + 2 + 2) 4096 (omega (arith, ptr_top)),
          )
          refl

pub gap_lem :
    (p : Array)
    → 24 + get_num_slots p * 4 ≤ get_free_space_ptr p
    → gap p ≡ some (get_free_space_ptr p - (24 + get_num_slots p * 4))
unfolding gap get_header_size
gap_lem p h = ground arith

module _ (p : Array) (s : ℕ) (bytes : List ℕ) (v : IsPacked (layout p)) (h : s < get_num_slots p)
    (free : (layout p).len s ≡ 0) where
  header_lem : 24 + get_num_slots p * 4 ≤ get_free_space_ptr p
  unfolding layout
  header_lem = v.header

  top_lem : get_free_space_ptr p ≤ 4096
  unfolding layout
  top_lem = v.top

  write_in_gap :
      24 + get_num_slots p * 4 + length bytes ≤ get_free_space_ptr p
      → (write_value_at_slot p (24 + s * 4) bytes ≡ some (stored p s bytes))
        × Becomes p (stored p s bytes) s bytes
  unfolding write_value_at_slot
  write_in_gap fits = (
    rw
        (
          gap_lem p header_lem,
          ltb-false (get_free_space_ptr p - (24 + get_num_slots p * 4)) (length bytes)
              (omega arith),
        )
        (store_below_lem p s bytes v h free fits),
    stored-Becomes p s bytes v h free fits,
  )

  -- After a compaction the value is stored in the page `q`.
  write-Compacted :
      (q : Array)
      → compact_page p ≡ some q
      → Compacted p q
      → get_free_space_ptr p < 24 + get_num_slots p * 4 + length bytes
      → 24 + get_num_slots p * 4 + length bytes ≤ get_free_space_ptr p + get_deleted_bytes p
      → (write_value_at_slot p (24 + s * 4) bytes ≡ some (stored q s bytes))
        × Becomes p (stored q s bytes) s bytes
  unfolding write_value_at_slot
  write-Compacted q ran c small fits =
      let h' : s < get_num_slots q = rw c.slots h in
      let free' : (layout q).len s ≡ 0 = c.lens s ∙ free in
      let fits' : 24 + get_num_slots q * 4 + length bytes ≤ get_free_space_ptr q =
        omega (arith, c.slots, c.gained) in
      let b = stored-Becomes q s bytes c.packed h' free' fits' in
      (
        rw
            (
              gap_lem p header_lem,
              lt→ltb (get_free_space_ptr p - (24 + get_num_slots p * 4)) (length bytes)
                  (omega (arith, header_lem)),
              ran,
            )
            (store_below_lem q s bytes c.packed h' free' fits'),
        record {
          packed = b.packed;
          slots = b.slots ∙ c.slots;
          deleted = b.deleted ∙ c.deleted;
          lens = λ i. ground (arith, b.lens i, c.lens i);
          values = λ i. ground (arith, b.values i, c.values i);
          front = λ k a. b.front k a ∙ c.front k a;
        },
      )

-- Where the gap and the holes together have room, `write_value_at_slot` does not panic, the slot
-- has the value, and every other slot keeps its own.
pub write-Becomes :
    (p : Array) (s : ℕ) (bytes : List ℕ)
    → IsPacked (layout p)
    → s < get_num_slots p
    → (layout p).len s ≡ 0
    → 24 + get_num_slots p * 4 + length bytes ≤ get_free_space_ptr p + get_deleted_bytes p
    → (q : Array) × (write_value_at_slot p (24 + s * 4) bytes ≡ some q) × Becomes p q s bytes
write-Becomes p s bytes v h free fits =
    elim (dec_lt (get_free_space_ptr p) (24 + get_num_slots p * 4 + length bytes)) [
      | yes small ↦
          let (q, ran, c) = compact_page-Compacted p v in
          let (written_lem, b) = write-Compacted p s bytes v h free q ran c small fits in
          (stored q s bytes, written_lem, b)
      | no large ↦
          let (written_lem, b) = write_in_gap p s bytes v h free (omega arith) in
          (stored p s bytes, written_lem, b)
    ]
