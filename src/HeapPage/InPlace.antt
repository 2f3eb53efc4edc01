-- ===== src/HeapPage/InPlace.antt =====
-- Branch 3a of `update_value`: a value is overwritten where it is.
use crusty_db.Prelude.{
  ℕ, ◌+◌, ◌-◌, ◌*◌, ◌<◌, ◌≤◌, ◌≡◌, refl, ◌∙◌, ap, ◌⊎◌, inl, inr, List, some, ◌==◌, ltb,
  if◌then◌else◌, length, arith, Bool-cases, le→leb, lt→ltb, replicate,
}
use crusty_db.Bytes.{Array, slice, copy, zero_fill}
use crusty_db.Bytes.Laws.{copy_outside, slice-copy_self, length-replicate, slice-ext}
use crusty_db.HeapPage.Header.{
  get_num_slots, get_deleted_bytes, set_deleted_bytes, put_u16, write_u16,
}
use crusty_db.HeapPage.Values.{update_in_place}
use crusty_db.HeapPage.Layout.{
  Layout, layout, update, layout-copy, layout-put_len, layout-set_deleted_bytes, slots-eq,
}
use crusty_db.HeapPage.Wf.{IsPacked, le-total, shrunk, shrunk-IsPacked}
use crusty_db.HeapPage.Reading.{contents, contents-frame}
use crusty_db.HeapPage.Freeing.{Becomes, value, contents-value, there, header_below}

module _ (p : Array) (s : ℕ) (bytes : List ℕ) where
  overwritten : Array
  overwritten =
      copy (zero_fill p ((layout p).offset s) ((layout p).len s)) ((layout p).offset s) bytes

  resized : Array
  resized = put_u16 overwritten (24 + s * 4 + 2) (length bytes)

  pub in_place : Array
  in_place =
      if ltb 0 ((layout p).len s - length bytes)
      then set_deleted_bytes resized (get_deleted_bytes resized + ((layout p).len s - length bytes))
      else resized

  in_place_data : (k : ℕ) → 24 + s * 4 + 4 ≤ k → in_place k ≡ overwritten k
  unfolding in_place resized set_deleted_bytes put_u16
  in_place_data k low = ground arith

  overwritten_def :
      (k : ℕ)
      → overwritten k
        ≡ copy (zero_fill p ((layout p).offset s) ((layout p).len s)) ((layout p).offset s) bytes k
  unfolding overwritten
  overwritten_def k = refl

  overwritten_self : slice overwritten ((layout p).offset s) (length bytes) ≡ bytes
  unfolding overwritten
  overwritten_self = slice-copy_self _ ((layout p).offset s) bytes

  module _ (v : IsPacked (layout p)) (h : 0 < (layout p).len s)
      (le : length bytes ≤ (layout p).len s) where
    layout-overwritten : layout overwritten ≡ layout p
    unfolding overwritten
    layout-overwritten =
        let z : Array = zero_fill p ((layout p).offset s) ((layout p).len s) in
        let low = header_below p s v h in
        let e : layout z ≡ layout p =
          layout-copy p ((layout p).offset s) (replicate ((layout p).len s) 0) low in
        layout-copy z ((layout p).offset s) bytes (rw (slots-eq z p e) low) ∙ e

    layout-resized :
        layout resized ≡ record (layout p) { len = update (layout p).len s (length bytes) }
    unfolding resized
    layout-resized =
        layout-put_len overwritten s (length bytes)
          (rw (slots-eq overwritten p layout-overwritten) (there p s v h))
          (omega (arith, v.inside s h))
        ∙ ap (λ (l : Layout). record l { len = update l.len s (length bytes) }) layout-overwritten

    resized_bytes : get_deleted_bytes resized ≡ (layout p).deleted_bytes
    unfolding layout
    resized_bytes = ap (λ (l : Layout). l.deleted_bytes) layout-resized

    waste_fits : get_deleted_bytes resized + ((layout p).len s - length bytes) < 65536
    unfolding layout
    waste_fits = omega (
      arith,
      resized_bytes,
      v.accounted,
      le-total (layout p).len s (layout p).slots (there p s v h),
    )

    layout-in_place : layout in_place ≡ shrunk (layout p) s (length bytes)
    unfolding in_place
    layout-in_place = elim (Bool-cases (ltb 0 ((layout p).len s - length bytes))) [
      | inl e ↦
          rw e (
            layout-set_deleted_bytes resized _ waste_fits ∙ rw (layout-resized, resized_bytes) refl)
      | inr e ↦ rw e (
          layout-resized
          ∙ ap
              (λ (n : ℕ). record (layout p) {
                deleted_bytes = n;
                len = update (layout p).len s (length bytes);
              })
              (ground (arith, e)))
    ]

    pub update_in_place_lem :
        update_in_place p (24 + s * 4) ((layout p).offset s) ((layout p).len s) bytes
        ≡ some in_place
    unfolding update_in_place in_place resized overwritten write_u16
    update_in_place_lem =
        rw
          (le→leb (24 + s * 4 + 2 + 2) 4096
            (omega (arith, there p s v h, header_below p s v h, v.inside s h)))
          (elim (Bool-cases (ltb 0 ((layout p).len s - length bytes))) [
            | inl e ↦
                rw
                  (
                    e,
                    lt→ltb (get_deleted_bytes resized + ((layout p).len s - length bytes)) 65536
                        waste_fits,
                  )
                  refl
            | inr e ↦ rw e refl
          ])

    in_place_outside :
        (k : ℕ)
        → 24 + get_num_slots p * 4 ≤ k
        → (k < (layout p).offset s) ⊎ ((layout p).offset s + (layout p).len s ≤ k)
        → in_place k ≡ p k
    in_place_outside k low o =
        in_place_data k (omega (arith, there p s v h))
        ∙ overwritten_def k
        ∙ copy_outside (zero_fill p ((layout p).offset s) ((layout p).len s)) ((layout p).offset s)
            bytes k (elim o [ inl a ↦ inl a | inr a ↦ inr (omega arith) ])
        ∙ copy_outside p ((layout p).offset s) (replicate ((layout p).len s) 0) k
            (rw length-replicate o)

    in_place_self : slice in_place ((layout p).offset s) (length bytes) ≡ bytes
    in_place_self =
        slice-ext in_place overwritten ((layout p).offset s) (length bytes)
          (λ k a b. in_place_data k (omega (arith, header_below p s v h, there p s v h)))
        ∙ overwritten_self

    in_place_len : (i : ℕ) → (layout in_place).len i ≡ update (layout p).len s (length bytes) i
    in_place_len i = ap (λ (l : Layout). l.len i) layout-in_place

    in_place_offset : (i : ℕ) → (layout in_place).offset i ≡ (layout p).offset i
    in_place_offset i = ap (λ (l : Layout). l.offset i) layout-in_place

    live_low :
        (i k : ℕ) → 0 < (layout p).len i → (layout p).offset i ≤ k → 24 + get_num_slots p * 4 ≤ k
    unfolding layout
    live_low i k live a = omega (arith, v.header, v.inside i live)

    in_place_values : (i : ℕ) → contents in_place i ≡ (if i == s then value bytes else contents p i)
    in_place_values i = elim (Bool-cases (i == s)) [
      | inl same ↦
          let e : i ≡ s = ground (arith, same) in
          rw (same, e)
            (contents-value in_place s ((layout p).offset s) bytes (in_place_offset s)
              (in_place_len s ∙ ground arith) in_place_self)
      | inr other ↦ rw other (
          contents-frame p in_place i (in_place_offset i) (in_place_len i ∙ rw other refl)
            (λ k a b live.
              in_place_outside k (live_low i k live a) (ground (arith, v.apart i s, other))))
    ]

    in_place_front : (k : ℕ) → k < 16 → in_place k ≡ p k
    unfolding in_place resized overwritten set_deleted_bytes put_u16
    in_place_front k a =
        let low = header_below p s v h in
        let o =
          copy_outside (zero_fill p ((layout p).offset s) ((layout p).len s)) ((layout p).offset s)
            bytes k (inl (omega (arith, low))) in
        let z =
          copy_outside p ((layout p).offset s) (replicate ((layout p).len s) 0) k
            (inl (omega (arith, low))) in
        ground (arith, o, z)

    pub in_place-Becomes : Becomes p in_place s bytes
    unfolding layout
    in_place-Becomes = record {
      packed = rw layout-in_place (shrunk-IsPacked (layout p) s v (length bytes) h le);
      slots = ap (λ (l : Layout). l.slots) layout-in_place;
      deleted = ap (λ (l : Layout). l.deleted_slots) layout-in_place;
      lens = in_place_len;
      values = in_place_values;
      front = in_place_front;
    }
