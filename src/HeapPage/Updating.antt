-- ===== src/HeapPage/Updating.antt =====
-- `update_value` on a well-formed page.
use native.Mathlib.Decide.{dec_lt}
use crusty_db.Prelude.{
  ℕ, ◌+◌, ◌-◌, ◌*◌, ◌<◌, ◌≤◌, ◌≡◌, ◌≢◌, refl, ◌∙◌, ◌⊎◌, inl, inr, List, [], ◌∷◌, none, some, length,
  arith, le→leb, leb-false,
}
use crusty_db.Bytes.{Array}
use crusty_db.HeapPage.Header.{get_num_slots, get_deleted_bytes, get_free_space_ptr}
use crusty_db.HeapPage.Space.{get_free_space}
use crusty_db.HeapPage.Values.{update_value, update_elsewhere}
use crusty_db.HeapPage.Layout.{layout}
use crusty_db.HeapPage.Wf.{IsPacked, IsWf, dead-update, total-update, total-ext}
use crusty_db.HeapPage.Reading.{
  contents, slot_there, slot_absent, read_offset, read_len, contents_absent, contents_dead,
  contents_live, slot_cases,
}
use crusty_db.HeapPage.Freeing.{Becomes, value, freeing, freed_page, there}
use crusty_db.HeapPage.Writing.{write-Becomes, gap_lem}
use crusty_db.HeapPage.Deleting.{Changed, settle, counts, live_guard}
use crusty_db.HeapPage.InPlace.{in_place, update_in_place_lem, in_place-Becomes}

-- The bytes of the page that are free or deleted, with the slot's own.
pub Becomes-room :
    (p q : Array) (s : ℕ) (bytes : List ℕ)
    → IsPacked (layout p)
    → s < get_num_slots p
    → Becomes p q s bytes
    → get_free_space_ptr q + get_deleted_bytes q + length bytes
      ≡ get_free_space_ptr p + get_deleted_bytes p + (layout p).len s
unfolding layout
Becomes-room p q s bytes v h b = omega (
  arith,
  v.accounted,
  rw (b.slots, total-ext (layout q).len _ (get_num_slots p) b.lens) at b.packed.accounted,
  total-update (layout p).len s (length bytes) (get_num_slots p) h,
)

Becomes-trans :
    (p q r : Array) (s : ℕ) (bytes : List ℕ)
    → Becomes p q s []
    → Becomes q r s bytes
    → Becomes p r s bytes
Becomes-trans p q r s bytes b c = record {
  packed = c.packed;
  slots = c.slots ∙ b.slots;
  deleted = c.deleted ∙ b.deleted;
  lens = λ i. ground (arith, c.lens i, b.lens i);
  values = λ i. ground (arith, c.values i, b.values i);
  front = λ k h. c.front k h ∙ b.front k h;
}

pub packed_low : (p : Array) → IsPacked (layout p) → 24 + get_num_slots p * 4 ≤ get_free_space_ptr p
unfolding layout
packed_low p v = v.header

pub free_space_lem :
    (p : Array)
    → 24 + get_num_slots p * 4 ≤ get_free_space_ptr p
    → get_free_space p
      ≡ some (get_free_space_ptr p - (24 + get_num_slots p * 4) + get_deleted_bytes p)
unfolding get_free_space
free_space_lem p h = rw (gap_lem p h) refl

module _ (p : Array) (s : ℕ) (bytes : List ℕ) where
  -- Branch 3b: refused for want of space, or moved.
  elsewhere :
      IsPacked (layout p)
      → 0 < (layout p).len s
      → length bytes
        < get_free_space_ptr p - (24 + get_num_slots p * 4) + get_deleted_bytes p + (layout p).len s
      → (q : Array) × (update_elsewhere p
            (24 + s * 4)
            ((layout p).offset s)
            ((layout p).len s)
            bytes
          ≡ some (some q))
        × Becomes p q s bytes
  unfolding update_elsewhere
  elsewhere v h room =
      let t = there p s v h in
      let (wrote, took, b) = freeing p s v h in
      let low : 24 + get_num_slots p * 4 ≤ get_free_space_ptr p = packed_low p v in
      let (q, ran, c) =
        write-Becomes (freed_page p s) s bytes b.packed (rw b.slots t) (b.lens s ∙ ground arith)
          (omega (arith, b.slots, Becomes-room p (freed_page p s) s [] v t b)) in
      (
        q,
        rw
            (
              free_space_lem p low,
              leb-false
                  (get_free_space_ptr p
                    - (24 + get_num_slots p * 4)
                    + get_deleted_bytes p
                    + (layout p).len s)
                  (length bytes) room,
              wrote,
              took,
              ran,
            )
            refl,
        Becomes-trans p (freed_page p s) q s bytes b c,
      )

  refused :
      IsPacked (layout p)
      → get_free_space_ptr p - (24 + get_num_slots p * 4) + get_deleted_bytes p + (layout p).len s
        ≤ length bytes
      → update_elsewhere p (24 + s * 4) ((layout p).offset s) ((layout p).len s) bytes ≡ some none
  unfolding update_elsewhere
  refused v full =
      rw
        (
          free_space_lem p (packed_low p v),
          le→leb
              (get_free_space_ptr p
                - (24 + get_num_slots p * 4)
                + get_deleted_bytes p
                + (layout p).len s)
              (length bytes) full,
        )
        refl

-- A value that is not empty.
pub value-some : (bytes : List ℕ) → 0 < length bytes → value bytes ≡ some bytes
value-some [] h = absurd (omega arith)
value-some (b ∷ bs) h = refl

-- When a value of this length is refused: it is longer than the old one, and no shorter than the
-- free space with the old value gone.
abbrev pub NoRoom : Array → ℕ → ℕ → Type 0
NoRoom p s n =
    ((layout p).len s < n)
    × (get_free_space_ptr p + get_deleted_bytes p + (layout p).len s ≤ 24 + get_num_slots p * 4 + n)

module _ (p : Array) (s : ℕ) (bytes : List ℕ) (w : IsWf (layout p))
    (some_bytes : 0 < length bytes) where
  settled : (q : Array) → 0 < (layout p).len s → Becomes p q s bytes → Changed p q s (some bytes)
  settled q h b = rw (value-some bytes some_bytes) at (
      settle p q s bytes
        (ground (
          arith,
          counts p w,
          dead-update (layout p).len s (length bytes) (get_num_slots p) (there p s w.packed h),
        ))
        b)

  update_live :
      0 < (layout p).len s
      → (NoRoom p s (length bytes) × (update_value p s bytes ≡ some none))
        ⊎ ((q : Array) × (¬ NoRoom p s (length bytes))
            × (update_value p s bytes ≡ some (some q))
            × Changed p q s (some bytes))
  unfolding update_value
  update_live h =
      let v = w.packed in
      let t = there p s v h in
      let n : ℕ = length bytes in
      let room : ℕ =
        get_free_space_ptr p
        - (24 + get_num_slots p * 4)
        + get_deleted_bytes p
        + (layout p).len s in
      let low = packed_low p v in
      elim (dec_lt ((layout p).len s) n) [
        | no fits ↦ inr (
          in_place p s bytes,
          λ r. fits r.0,
          rw (slot_there p s t, update_value, read_offset p s v t, read_len p s v t)
              (rw
                (
                  live_guard p s v h,
                  le→leb n ((layout p).len s) (omega arith),
                  update_in_place_lem p s bytes v h (omega arith),
                )
                refl),
          settled (in_place p s bytes) h (in_place-Becomes p s bytes v h (omega arith)),
        )
        | yes longer ↦ elim (dec_lt n room) [
          | yes enough ↦
              let (q, ran, b) = elsewhere p s bytes v h enough in
              inr (
                q,
                λ r. absurd (omega (arith, r.1, enough, low)),
                rw (slot_there p s t, update_value, read_offset p s v t, read_len p s v t)
                    (rw (live_guard p s v h, leb-false n ((layout p).len s) longer) ran),
                settled q h b,
              )
          | no full ↦ inl (
            (longer, omega (arith, low)),
            rw (slot_there p s t, update_value, read_offset p s v t, read_len p s v t)
                (rw (live_guard p s v h, leb-false n ((layout p).len s) longer)
                  (refused p s bytes v (omega arith))),
          )
        ]
      ]

-- On a well-formed page `update_value` with a value that is not empty does not panic. It returns
-- `None` where the slot has no value, and where the new value is longer than the old one and no
-- shorter than the free space with the old one gone. Everywhere else the slot has the new value,
-- every other slot keeps its own, and the page is well-formed again, with its first 16 bytes as
-- they were.
pub update_value-Changed :
    (p : Array) (s : ℕ) (bytes : List ℕ)
    → IsWf (layout p)
    → 0 < length bytes
    → (((contents p s ≡ none) ⊎ NoRoom p s (length bytes)) × (update_value p s bytes ≡ some none))
      ⊎ ((q : Array) × (contents p s ≢ none)
          × (¬ NoRoom p s (length bytes))
          × (update_value p s bytes ≡ some (some q))
          × Changed p q s (some bytes))
unfolding update_value
update_value-Changed p s bytes w h = elim (slot_cases p s) [
  | inl live ↦ elim (update_live p s bytes w h live) [
    | inl (full, ran) ↦ inl (inr full, ran)
    | inr (q, room, ran, c) ↦ inr (q, contents_live p s live, room, ran, c)
  ]
  | inr (inl (t, dead_slot)) ↦ inl (
    inl (contents_dead p s dead_slot),
    rw
        (
          slot_there p s t,
          update_value,
          read_offset p s w.packed t,
          read_len p s w.packed t,
          dead_slot,
        )
        refl,
  )
  | inr (inr out) ↦
      inl (inl (contents_absent p s w.packed out), rw (slot_absent p s out, update_value) refl)
]
