-- ===== src/HeapPage/Freeing.antt =====
-- Freeing a value: the steps that `delete_value` and `update_value` share.
use crusty_db.Prelude.{
  ℕ, ◌+◌, ◌*◌, ◌≤◌, ◌<◌, ◌≡◌, refl, ap, ◌∙◌, ◌⊎◌, inl, inr, ◌==◌, arith, List, [], ◌∷◌, Option,
  none, some, if◌then◌else◌, length, Bool-cases, lt→ltb, le→leb, replicate,
}
use crusty_db.Bytes.{Array, slice, zero_fill, to_le_bytes}
use crusty_db.Bytes.Laws.{copy_outside, length-replicate}
use crusty_db.HeapPage.Header.{
  put_u16, write_u16, get_num_slots, get_free_space_ptr, set_free_space_ptr, get_deleted_bytes,
  set_deleted_bytes, get_deleted_slot_count,
}
use crusty_db.HeapPage.Values.{reclaim}
use crusty_db.HeapPage.Layout.{
  Layout, layout, update, layout-copy, layout-put_len, layout-set_free_space_ptr,
  layout-set_deleted_bytes, slots-eq,
}
use crusty_db.HeapPage.Wf.{IsPacked, lt-slots, freed, freed-IsPacked, le-total}
use crusty_db.HeapPage.Reading.{contents, contents-frame}

-- A value of length 0 is no value.
abbrev pub value : List ℕ → Option (List ℕ)
value [] = none
value (b ∷ bs) = some (b ∷ bs)

-- The page `q` is `p` with `bytes` in slot `s`, and every other slot's value and the fixed header
-- as before.
pub record Becomes (p q : Array) (s : ℕ) (bytes : List ℕ) : Type 0 where
  pub packed : IsPacked (layout q)
  pub slots : get_num_slots q ≡ get_num_slots p
  pub deleted : get_deleted_slot_count q ≡ get_deleted_slot_count p
  pub lens : (i : ℕ) → (layout q).len i ≡ update (layout p).len s (length bytes) i
  pub values : (i : ℕ) → contents q i ≡ (if i == s then value bytes else contents p i)
  pub front : (k : ℕ) → k < 16 → q k ≡ p k

pub contents-none : (p : Array) (i : ℕ) → (layout p).len i ≡ 0 → contents p i ≡ none
unfolding contents
contents-none p i e = rw e

pub contents-value :
    (p : Array) (i at : ℕ) (bytes : List ℕ)
    → (layout p).offset i ≡ at
    → (layout p).len i ≡ length bytes
    → slice p at (length bytes) ≡ bytes
    → contents p i ≡ value bytes
unfolding contents
contents-value p i at [] o n e = rw n refl
contents-value p i at (b ∷ bs) o n e =
    rw (n, o, lt→ltb 0 (length (b ∷ bs)) (omega arith)) (ap some e)

-- `reclaim` with its overflow check passed.
pub after_reclaim : Array → ℕ → ℕ → Array
after_reclaim q at n =
    if at == get_free_space_ptr q
    then set_free_space_ptr q (at + n)
    else set_deleted_bytes q (get_deleted_bytes q + n)

module _ (q : Array) (at n : ℕ) where
  reclaim_lem : get_deleted_bytes q + n < 65536 → reclaim q at n ≡ some (after_reclaim q at n)
  unfolding reclaim after_reclaim
  reclaim_lem h = ground arith

  layout-after_reclaim :
      at + n < 65536
      → get_deleted_bytes q + n < 65536
      → layout (after_reclaim q at n) ≡ record (layout q) {
        fsp = if at == get_free_space_ptr q then at + n else get_free_space_ptr q;
        deleted_bytes =
            if at == get_free_space_ptr q then get_deleted_bytes q else get_deleted_bytes q + n;
      }
  unfolding after_reclaim layout
  layout-after_reclaim h k = elim (Bool-cases (at == get_free_space_ptr q)) [
    | inl e ↦ rw e (layout-set_free_space_ptr q (at + n) h)
    | inr e ↦ rw e (layout-set_deleted_bytes q (get_deleted_bytes q + n) k)
  ]

  after_reclaim_outside : (k : ℕ) → 24 ≤ k → after_reclaim q at n k ≡ q k
  unfolding after_reclaim set_free_space_ptr set_deleted_bytes put_u16
  after_reclaim_outside k h = ground arith

-- The page after a value's bytes and its slot's length are zeroed.
pub cleared : Array → ℕ → Array
cleared p s = put_u16 (zero_fill p ((layout p).offset s) ((layout p).len s)) (24 + s * 4 + 2) 0

pub freed_page : Array → ℕ → Array
freed_page p s = after_reclaim (cleared p s) ((layout p).offset s) ((layout p).len s)

module _ (p : Array) (s : ℕ) (v : IsPacked (layout p)) (h : 0 < (layout p).len s) where
  pub there : s < get_num_slots p
  unfolding layout
  there = lt-slots (layout p) s v h

  pub header_below : 24 + get_num_slots p * 4 ≤ (layout p).offset s
  unfolding layout
  header_below = omega (arith, v.header, v.inside s h)

  slots_header : 24 + get_num_slots p * 4 ≤ (layout p).fsp
  unfolding layout
  slots_header = v.header

  layout-zeroed : layout (zero_fill p ((layout p).offset s) ((layout p).len s)) ≡ layout p
  layout-zeroed = layout-copy p ((layout p).offset s) (replicate ((layout p).len s) 0) header_below

  layout-cleared : layout (cleared p s) ≡ record (layout p) { len = update (layout p).len s 0 }
  unfolding cleared
  layout-cleared =
      let z : Array = zero_fill p ((layout p).offset s) ((layout p).len s) in
      layout-put_len z s 0 (rw (slots-eq z p layout-zeroed) there) (omega arith)
      ∙ ap (λ (l : Layout). record l { len = update l.len s 0 }) layout-zeroed

  cleared_fsp : get_free_space_ptr (cleared p s) ≡ (layout p).fsp
  unfolding layout
  cleared_fsp = ap (λ (l : Layout). l.fsp) layout-cleared

  cleared_bytes : get_deleted_bytes (cleared p s) ≡ (layout p).deleted_bytes
  unfolding layout
  cleared_bytes = ap (λ (l : Layout). l.deleted_bytes) layout-cleared

  no_overflow : get_deleted_bytes (cleared p s) + (layout p).len s < 65536
  unfolding layout
  no_overflow =
      omega (arith, cleared_bytes, v.accounted, le-total (layout p).len s (layout p).slots there)

  layout-freed_page : layout (freed_page p s) ≡ freed (layout p) s
  unfolding freed_page
  layout-freed_page =
      layout-after_reclaim (cleared p s) ((layout p).offset s) ((layout p).len s)
        (omega (arith, v.inside s h)) no_overflow
      ∙ rw (layout-cleared, cleared_fsp, cleared_bytes) refl

  freed_page_front : (k : ℕ) → k < 16 → freed_page p s k ≡ p k
  unfolding freed_page cleared after_reclaim set_free_space_ptr set_deleted_bytes put_u16
  freed_page_front k a =
      let o : zero_fill p ((layout p).offset s) ((layout p).len s) k ≡ p k =
        copy_outside p ((layout p).offset s) (replicate ((layout p).len s) 0) k
          (inl (omega (arith, header_below))) in
      ground (arith, o)

  freed_page_outside :
      (k : ℕ)
      → 24 + get_num_slots p * 4 ≤ k
      → (k < (layout p).offset s) ⊎ ((layout p).offset s + (layout p).len s ≤ k)
      → freed_page p s k ≡ p k
  unfolding freed_page cleared put_u16
  freed_page_outside k b o =
      after_reclaim_outside (cleared p s) ((layout p).offset s) ((layout p).len s) k (omega arith)
      ∙ copy_outside (zero_fill p ((layout p).offset s) ((layout p).len s)) (24 + s * 4 + 2)
          (to_le_bytes 2 0) k (inr (omega (arith, there)))
      ∙ copy_outside p ((layout p).offset s) (replicate ((layout p).len s) 0) k
          (rw length-replicate o)

  freed_slots : get_num_slots (freed_page p s) ≡ get_num_slots p
  unfolding layout
  freed_slots = ap (λ (l : Layout). l.slots) layout-freed_page

  freed_deleted : get_deleted_slot_count (freed_page p s) ≡ get_deleted_slot_count p
  unfolding layout
  freed_deleted = ap (λ (l : Layout). l.deleted_slots) layout-freed_page

  freed_len : (i : ℕ) → (layout (freed_page p s)).len i ≡ update (layout p).len s 0 i
  freed_len i = ap (λ (l : Layout). l.len i) layout-freed_page

  freed_values : (i : ℕ) → contents (freed_page p s) i ≡ (if i == s then none else contents p i)
  freed_values i = elim (Bool-cases (i == s)) [
    | inl same ↦ rw same (contents-none (freed_page p s) i (freed_len i ∙ rw same refl))
    | inr other ↦ rw other (
        contents-frame p (freed_page p s) i (ap (λ (l : Layout). l.offset i) layout-freed_page)
          (freed_len i ∙ rw other refl)
          (λ k a b live.
            freed_page_outside k (frame i live a) (ground (arith, v.apart i s, other))))
  ]
    where
      frame :
          (i : ℕ) {k : ℕ}
          → 0 < (layout p).len i
          → (layout p).offset i ≤ k
          → 24 + get_num_slots p * 4 ≤ k
      frame i live a = omega (arith, slots_header, v.inside i live)

  freed_Becomes : Becomes p (freed_page p s) s []
  freed_Becomes = record {
    packed = rw layout-freed_page (freed-IsPacked (layout p) s v h);
    slots = freed_slots;
    deleted = freed_deleted;
    lens = freed_len;
    values = freed_values;
    front = freed_page_front;
  }

  -- The two steps that free a slot's value do not panic, and only that slot changes.
  pub freeing :
      (write_u16 (zero_fill p ((layout p).offset s) ((layout p).len s)) (24 + s * 4 + 2) 0
        ≡ some (cleared p s))
      × (reclaim (cleared p s) ((layout p).offset s) ((layout p).len s) ≡ some (freed_page p s))
      × Becomes p (freed_page p s) s []
  unfolding write_u16 cleared freed_page layout
  freeing = (
    rw (le→leb (24 + s * 4 + 2 + 2) 4096 (omega (arith, header_below, v.inside s h, there))) refl,
    reclaim_lem (cleared p s) ((layout p).offset s) ((layout p).len s) no_overflow,
    freed_Becomes,
  )
