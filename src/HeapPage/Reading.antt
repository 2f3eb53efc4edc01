-- ===== src/HeapPage/Reading.antt =====
-- `get_value` on a well-formed page, and when a write leaves a value alone.
use native.Mathlib.Decide.{dec_lt}
use crusty_db.Prelude.{
  ℕ, ◌+◌, ◌*◌, ◌≤◌, ◌<◌, ◌≡◌, ◌≢◌, refl, ap, sym, ◌⊎◌, inl, inr, ltb, arith, List, Option, none,
  some, if◌then◌else◌, Bool-cases, lt→ltb, le→leb,
}
use crusty_db.Bytes.{Array, slice}
use crusty_db.Bytes.Laws.{slice-ext}
use crusty_db.HeapPage.Header.{get_u16, read_u16, get_num_slots, get_slot_metadata_offset}
use crusty_db.HeapPage.Values.{get_value}
use crusty_db.HeapPage.Layout.{layout}
use crusty_db.HeapPage.Wf.{IsPacked}

-- The value in a slot, as the layout says; `none` for a free slot or one that is not there.
unfoldable pub contents : Array → ℕ → Option (List ℕ)
contents p s =
    if ltb 0 ((layout p).len s)
    then some (slice p ((layout p).offset s) ((layout p).len s))
    else none

module _ (p : Array) (s : ℕ) where
  pub layout-offset : s < get_num_slots p → (layout p).offset s ≡ get_u16 p (24 + s * 4)
  unfolding layout
  layout-offset h = rw (lt→ltb s (get_num_slots p) h)

  pub layout-len : s < get_num_slots p → (layout p).len s ≡ get_u16 p (24 + s * 4 + 2)
  unfolding layout
  layout-len h = rw (lt→ltb s (get_num_slots p) h)

  module _ (v : IsPacked (layout p)) (h : s < get_num_slots p) where
    in_page : 24 + s * 4 + 4 ≤ 4096
    unfolding layout
    in_page = omega (arith, v.header, v.top)

    pub read_offset : read_u16 p (24 + s * 4) ≡ some ((layout p).offset s)
    unfolding read_u16
    read_offset = rw (layout-offset h, le→leb (24 + s * 4 + 2) 4096 (omega (arith, in_page)))

    pub read_len : read_u16 p (24 + s * 4 + 2) ≡ some ((layout p).len s)
    unfolding read_u16
    read_len = rw (layout-len h, le→leb (24 + s * 4 + 2 + 2) 4096 (omega (arith, in_page)))

  pub slot_there : s < get_num_slots p → get_slot_metadata_offset p s ≡ some (24 + s * 4)
  unfolding get_slot_metadata_offset
  slot_there h = ground arith

  pub slot_absent : get_num_slots p ≤ s → get_slot_metadata_offset p s ≡ none
  unfolding get_slot_metadata_offset
  slot_absent h = ground arith

  pub contents_absent : IsPacked (layout p) → get_num_slots p ≤ s → contents p s ≡ none
  unfolding contents layout
  contents_absent v h = ground (arith, v.beyond s)

  -- On a page whose values are packed, `get_value` does not panic and returns the slot's value.
  pub get_value-contents : IsPacked (layout p) → get_value p s ≡ some (contents p s)
  unfolding get_value contents
  get_value-contents v = elim (dec_lt s (get_num_slots p)) [
    | yes h ↦
        rw (slot_there h, get_value, read_offset v h, read_len v h) (ground (arith, v.inside s))
    | no h ↦
        rw (slot_absent (omega arith), get_value) (ap some (sym (contents_absent v (omega arith))))
  ]

-- A write that leaves a slot's metadata and its bytes alone leaves its value.
pub contents-frame :
    (p q : Array) (s : ℕ)
    → (layout q).offset s ≡ (layout p).offset s
    → (layout q).len s ≡ (layout p).len s
    → ((k : ℕ)
        → (layout p).offset s ≤ k
        → k < (layout p).offset s + (layout p).len s
        → 0 < (layout p).len s
        → q k ≡ p k)
    → contents q s ≡ contents p s
unfolding contents
contents-frame p q s o l h =
    rw (o, l)
      (elim (Bool-cases (ltb 0 ((layout p).len s))) [
        | inl live ↦ rw live (
            ap some (
              slice-ext q p ((layout p).offset s) ((layout p).len s)
                (λ k a b. h k a b (ground arith))))
        | inr gone ↦ rw gone refl
      ])

pub contents_live : (p : Array) (s : ℕ) → 0 < (layout p).len s → contents p s ≢ none
unfolding contents
contents_live p s h = λ e. ground arith

pub contents_dead : (p : Array) (s : ℕ) → (layout p).len s ≡ 0 → contents p s ≡ none
unfolding contents
contents_dead p s e = rw e

-- A slot is live, or free, or not there.
pub slot_cases :
    (p : Array) (s : ℕ)
    → (0 < (layout p).len s)
      ⊎ ((s < get_num_slots p) × ((layout p).len s ≡ 0) ⊎ (get_num_slots p ≤ s))
slot_cases p s = elim (dec_lt 0 ((layout p).len s)) [
  | yes h ↦ inl h
  | no h ↦ elim (dec_lt s (get_num_slots p)) [
    | yes k ↦ inr (inl (k, omega arith))
    | no k ↦ inr (inr (omega arith))
  ]
]
