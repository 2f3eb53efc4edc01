-- ===== src/HeapPage/Adding.antt =====
-- `add_value` on a well-formed page.
use native.Mathlib.Decide.{dec_lt}
use crusty_db.Prelude.{
  ℕ, zero, suc, ◌≢◌, ◌+◌, ◌-◌, ◌*◌, ◌/◌, ◌%◌, ◌<◌, ◌≤◌, ◌≡◌, refl, ap, ◌⊎◌, inl, inr, List, none,
  some, ltb, leb, length, arith, Bool-cases, true, false, le→leb, leb-false, ◌||◌,
}
use crusty_db.Bytes.{Array}
use crusty_db.HeapPage.Header.{
  get_num_slots, get_deleted_bytes, get_free_space_ptr, get_header_size, get_deleted_slot_count,
}
use crusty_db.HeapPage.Space.{find_next_free_slot}
use crusty_db.HeapPage.Values.{add_value, lacks_space}
use crusty_db.HeapPage.Layout.{Layout, layout}
use crusty_db.HeapPage.Wf.{IsWf, dead, dead_pos}
use crusty_db.HeapPage.Reading.{contents, contents_absent, contents_dead, contents_live}
use crusty_db.HeapPage.Writing.{write-Becomes, gap_lem}
use crusty_db.HeapPage.Deleting.{Changed, counts}
use crusty_db.HeapPage.Updating.{packed_low, free_space_lem}
use crusty_db.HeapPage.Claiming.{
  free_slot_lem, Claimed-Changed, enlarged, claim_reused, reused-Claimed, reused, claim_enlarged,
  enlarged-Claimed, layout-enlarged, layout-reused,
}

header_size_lem : (p : Array) → get_header_size p ≡ 24 + get_num_slots p * 4
unfolding get_header_size
header_size_lem p = refl

slot_id_lem : (j : ℕ) → j < 65536 → (24 + j * 4 - 24) / 4 % 65536 ≡ j
slot_id_lem j h = omega arith

abbrev free_bytes : Array → ℕ
free_bytes p = get_free_space_ptr p - (24 + get_num_slots p * 4) + get_deleted_bytes p

lacks_reused :
    (p : Array) (n : ℕ)
    → 24 + get_num_slots p * 4 ≤ get_free_space_ptr p
    → lacks_space p n false ≡ some (leb (free_bytes p) n)
unfolding lacks_space
lacks_reused p n low = rw (free_space_lem p low) refl

lacks_new :
    (p : Array) (n : ℕ)
    → 24 + get_num_slots p * 4 ≤ get_free_space_ptr p
    → lacks_space p n true
      ≡ some
          (ltb (get_free_space_ptr p - (24 + get_num_slots p * 4)) 4 || leb (free_bytes p) (n + 4))
unfolding lacks_space
lacks_new p n low = rw (gap_lem p low, free_space_lem p low) refl

-- When a value of this length is refused. With a deleted slot to reuse: it is no shorter than the
-- free space. Otherwise: with a slot's metadata it is no shorter, or the gap is too small for the
-- metadata.
abbrev pub NoSpace : Array → ℕ → Type 0
NoSpace p n =
    ((0 < get_deleted_slot_count p)
      × (get_free_space_ptr p + get_deleted_bytes p ≤ 24 + get_num_slots p * 4 + n))
    ⊎ ((get_deleted_slot_count p ≡ 0)
        × ((get_free_space_ptr p + get_deleted_bytes p ≤ 24 + get_num_slots p * 4 + n + 4)
            ⊎ (get_free_space_ptr p < 24 + get_num_slots p * 4 + 4)))

dead-none : (f : ℕ → ℕ) (n : ℕ) → ((k : ℕ) → k < n → 0 < f k) → dead f n ≡ 0
dead-none f zero h = refl
dead-none f (suc n) h =
    let rest = dead-none f n (λ k b. h k (omega (arith, b))) in
    ground (arith, rest, h n (omega arith))

module _ (p : Array) (w : IsWf (layout p)) (bytes : List ℕ) (some_bytes : 0 < length bytes) where
  abbrev Added : Type 0
  Added =
      (NoSpace p (length bytes) × (add_value p bytes ≡ some none))
      ⊎ ((q : Array) × (j : ℕ) × (contents p j ≡ none)
          × ((i : ℕ) → i < j → contents p i ≢ none)
          × (¬ NoSpace p (length bytes))
          × (add_value p bytes ≡ some (some (q, j)))
          × Changed p q j (some bytes))

  same_counters :
      (j : ℕ)
      → j < get_num_slots p
      → (layout p).len j ≡ 0
      → (get_num_slots (reused p w) ≡ get_num_slots p)
        × (get_free_space_ptr (reused p w) ≡ get_free_space_ptr p)
        × (get_deleted_bytes (reused p w) ≡ get_deleted_bytes p)
  unfolding layout
  same_counters j h free =
      let e = layout-reused p w j h free in
      (
        ap (λ (l : Layout). l.slots) e,
        ap (λ (l : Layout). l.fsp) e,
        ap (λ (l : Layout). l.deleted_bytes) e,
      )

  grown_counters :
      24 + get_num_slots p * 4 + 4 ≤ get_free_space_ptr p
      → (get_num_slots (enlarged p) ≡ get_num_slots p + 1)
        × (get_free_space_ptr (enlarged p) ≡ get_free_space_ptr p)
        × (get_deleted_bytes (enlarged p) ≡ get_deleted_bytes p)
  unfolding layout
  grown_counters room =
      let e = layout-enlarged p w room in
      (
        ap (λ (l : Layout). l.slots) e,
        ap (λ (l : Layout). l.fsp) e,
        ap (λ (l : Layout). l.deleted_bytes) e,
      )

  add_reusing :
      (j : ℕ)
      → find_next_free_slot p ≡ some (24 + j * 4)
      → j < get_num_slots p
      → (layout p).len j ≡ 0
      → ((k : ℕ) → k < j → 0 < (layout p).len k)
      → Added
  unfolding add_value
  add_reusing j found h free taken =
      let low = packed_low p w.packed in
      let reusable : 0 < get_deleted_slot_count p =
        omega (arith, counts p w, dead_pos (layout p).len j (get_num_slots p) h free) in
      let old : leb (get_header_size p) (24 + j * 4) ≡ false =
        rw (header_size_lem p) (leb-false (24 + get_num_slots p * 4) (24 + j * 4) (omega arith)) in
      elim (Bool-cases (leb (free_bytes p) (length bytes))) [
        | inl full ↦ inl (
          inl (reusable, ground (arith, full, low)),
          rw (found, old, lacks_reused p (length bytes) low, full) refl,
        )
        | inr room ↦
            let c = reused-Claimed p w j h free in
            let (q, ran, b) =
              write-Becomes (reused p w) j bytes c.packed c.there c.free
                (ground (arith, room, low, same_counters j h free)) in
            inr (
              q,
              j,
              contents_dead p j free,
              λ k b. contents_live p k (taken k b),
              λ refused. ground (arith, refused, reusable, room, low),
              rw
                  (
                    found,
                    old,
                    lacks_reused p (length bytes) low,
                    room,
                    claim_reused p w j h free,
                    ran,
                    slot_id_lem j (omega (arith, low, counts p w)),
                  )
                  refl,
              Claimed-Changed p (reused p w) q j bytes some_bytes c b,
            )
      ]

  add_growing :
      find_next_free_slot p ≡ some (24 + get_num_slots p * 4)
      → ((k : ℕ) → k < get_num_slots p → 0 < (layout p).len k)
      → Added
  unfolding add_value
  add_growing found taken =
      let low = packed_low p w.packed in
      let none_dead : get_deleted_slot_count p ≡ 0 =
        omega (arith, counts p w, dead-none (layout p).len (get_num_slots p) taken) in
      let ns : ℕ = get_num_slots p in
      let new : leb (get_header_size p) (24 + ns * 4) ≡ true =
        rw (header_size_lem p) (le→leb (24 + ns * 4) (24 + ns * 4) (omega arith)) in
      elim (Bool-cases
        (ltb (get_free_space_ptr p - (24 + ns * 4)) 4 || leb (free_bytes p) (length bytes + 4))) [
          | inl full ↦ inl (
            inr (none_dead, ground (arith, full, low)),
            rw (found, new, lacks_new p (length bytes) low, full) refl,
          )
          | inr room ↦
              let gap_room : 24 + ns * 4 + 4 ≤ get_free_space_ptr p = ground (arith, room, low) in
              let c = enlarged-Claimed p w gap_room in
              let (q, ran, b) =
                write-Becomes (enlarged p) ns bytes c.packed c.there c.free
                  (ground (arith, room, low, grown_counters gap_room)) in
              inr (
                q,
                ns,
                contents_absent p ns w.packed (omega arith),
                λ k b. contents_live p k (taken k b),
                λ refused. ground (arith, refused, none_dead, room, low),
                rw
                    (
                      found,
                      new,
                      lacks_new p (length bytes) low,
                      room,
                      claim_enlarged p w gap_room,
                      ran,
                      slot_id_lem ns (omega (arith, counts p w)),
                    )
                    refl,
                Claimed-Changed p (enlarged p) q ns bytes some_bytes c b,
              )
        ]

-- On a well-formed page `add_value` of a value that is not empty does not panic. It returns `None`
-- where the free space is no larger than the value, with four bytes more for its metadata if there
-- is no deleted slot, and where there is no deleted slot and the gap is too small for the metadata.
-- Everywhere else it returns the lowest slot that had no value, which now has this one, every other
-- slot keeps its own, and the page is well-formed again, with its first 16 bytes as they were.
pub add_value-Changed :
    (p : Array) (bytes : List ℕ)
    → IsWf (layout p)
    → 0 < length bytes
    → (NoSpace p (length bytes) × (add_value p bytes ≡ some none))
      ⊎ ((q : Array) × (j : ℕ) × (contents p j ≡ none)
          × ((i : ℕ) → i < j → contents p i ≢ none)
          × (¬ NoSpace p (length bytes))
          × (add_value p bytes ≡ some (some (q, j)))
          × Changed p q j (some bytes))
unfolding find_next_free_slot
add_value-Changed p bytes w h =
    let (j, found, le, free, taken) = free_slot_lem p (get_num_slots p) 0 w.packed (omega arith) in
    elim (dec_lt j (get_num_slots p)) [
      | yes inner ↦
          add_reusing p w bytes h j found inner (free inner) (λ k b. taken k (omega arith) b)
      | no outer ↦
          let e : j ≡ get_num_slots p = omega arith in
          add_growing p w bytes h (rw e at found)
            (λ k b. taken k (omega arith) (omega (arith, b, e)))
    ]
