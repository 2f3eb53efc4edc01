-- ===== src/HeapPage/Layout.antt =====
-- What the header and the slot metadata say, and how each write changes it.
use crusty_db.Prelude.{
  ℕ, ◌+◌, ◌*◌, ◌≤◌, ◌<◌, ◌≡◌, ◌≢◌, ap, ◌∙◌, ◌⊎◌, List, [], ◌∷◌, ◌==◌, ltb, length, arith,
  if◌then◌else◌,
}
use crusty_db.Bytes.{Array, copy, zero_fill, to_le_bytes, from_le_bytes}
use crusty_db.Bytes.Laws.{slice-copy_outside}
use crusty_db.HeapPage.Header.{
  get_u16, put_u16, get_num_slots, set_num_slots, get_free_space_ptr, set_free_space_ptr,
  get_deleted_bytes, set_deleted_bytes, get_deleted_slot_count, set_deleted_slot_count,
}

-- Offset and length of a slot beyond the number of slots count as 0.
pub record Layout : Type 0 where
  pub slots : ℕ
  pub fsp : ℕ
  pub deleted_bytes : ℕ
  pub deleted_slots : ℕ
  pub offset : ℕ → ℕ
  pub len : ℕ → ℕ

unfoldable pub layout : Array → Layout
layout p = record {
  slots = get_num_slots p;
  fsp = get_free_space_ptr p;
  deleted_bytes = get_deleted_bytes p;
  deleted_slots = get_deleted_slot_count p;
  offset = λ i. if ltb i (get_num_slots p) then get_u16 p (24 + i * 4) else 0;
  len = λ i. if ltb i (get_num_slots p) then get_u16 p (24 + i * 4 + 2) else 0;
}

pub Layout-ext :
    (l m : Layout)
    → l.slots ≡ m.slots
    → l.fsp ≡ m.fsp
    → l.deleted_bytes ≡ m.deleted_bytes
    → l.deleted_slots ≡ m.deleted_slots
    → ((i : ℕ) → l.offset i ≡ m.offset i)
    → ((i : ℕ) → l.len i ≡ m.len i)
    → l ≡ m
Layout-ext l m a b c d e f = λ i. record {
  slots = a i;
  fsp = b i;
  deleted_bytes = c i;
  deleted_slots = d i;
  offset = λ k. e k i;
  len = λ k. f k i;
}

pub get-put_self : (p : Array) (a v : ℕ) → v < 65536 → get_u16 (put_u16 p a v) a ≡ v
unfolding get_u16 put_u16
get-put_self p a v h = ground arith

pub get-copy_outside :
    (p : Array) (a : ℕ) (bs : List ℕ) (b : ℕ)
    → (b + 2 ≤ a) ⊎ (a + length bs ≤ b)
    → get_u16 (copy p a bs) b ≡ get_u16 p b
unfolding get_u16
get-copy_outside p a bs b h = ap from_le_bytes (slice-copy_outside p a bs b 2 h)

pub get-put_outside :
    (p : Array) (a v b : ℕ) → (b + 2 ≤ a) ⊎ (a + 2 ≤ b) → get_u16 (put_u16 p a v) b ≡ get_u16 p b
unfolding put_u16
get-put_outside p a v b h = get-copy_outside p a (to_le_bytes 2 v) b h

-- A function changed at one argument.
abbrev pub update : (ℕ → ℕ) → ℕ → ℕ → ℕ → ℕ
update f s v i = if i == s then v else f i

-- The addresses of two slots' fields, which are apart.
apart : (i s : ℕ) → i ≢ s → (24 + i * 4 + 4 ≤ 24 + s * 4) ⊎ (24 + s * 4 + 4 ≤ 24 + i * 4)
apart i s h = ground arith

get_zeros :
    (p : Array) (a : ℕ)
    → (get_u16 (copy p a (0 ∷ 0 ∷ 0 ∷ 0 ∷ [])) a ≡ 0)
      × (get_u16 (copy p a (0 ∷ 0 ∷ 0 ∷ 0 ∷ [])) (a + 2) ≡ 0)
unfolding get_u16
get_zeros p a = ground arith

module _ (p : Array) where
  unfolding_fields : Unit {0}
  unfolding layout get_num_slots get_free_space_ptr get_deleted_bytes get_deleted_slot_count
  unfolding_fields = tt

  -- A write from the slots on leaves the four counters.
  copy_counters :
      (a : ℕ) (bs : List ℕ)
      → 24 ≤ a
      → (get_num_slots (copy p a bs) ≡ get_num_slots p)
        × (get_free_space_ptr (copy p a bs) ≡ get_free_space_ptr p)
        × (get_deleted_bytes (copy p a bs) ≡ get_deleted_bytes p)
        × (get_deleted_slot_count (copy p a bs) ≡ get_deleted_slot_count p)
  unfolding unfolding_fields
  copy_counters a bs h = (
    get-copy_outside p a bs 16 (omega arith),
    get-copy_outside p a bs 18 (omega arith),
    get-copy_outside p a bs 20 (omega arith),
    get-copy_outside p a bs 22 (omega arith),
  )

  pub layout-set_free_space_ptr :
      (v : ℕ) → v < 65536 → layout (set_free_space_ptr p v) ≡ record (layout p) { fsp = v }
  unfolding unfolding_fields set_free_space_ptr
  layout-set_free_space_ptr v h =
      let n = get-put_outside p 18 v 16 (omega arith) in
      Layout-ext (layout (set_free_space_ptr p v)) (record (layout p) { fsp = v }) n
        (get-put_self p 18 v h) (get-put_outside p 18 v 20 (omega arith))
        (get-put_outside p 18 v 22 (omega arith))
        (λ i. rw (n, get-put_outside p 18 v (24 + i * 4) (omega arith)))
        (λ i. rw (n, get-put_outside p 18 v (24 + i * 4 + 2) (omega arith)))

  pub layout-set_deleted_bytes :
      (v : ℕ) → v < 65536 → layout (set_deleted_bytes p v) ≡ record (layout p) { deleted_bytes = v }
  unfolding unfolding_fields set_deleted_bytes
  layout-set_deleted_bytes v h =
      let n = get-put_outside p 20 v 16 (omega arith) in
      Layout-ext (layout (set_deleted_bytes p v)) (record (layout p) { deleted_bytes = v }) n
        (get-put_outside p 20 v 18 (omega arith)) (get-put_self p 20 v h)
        (get-put_outside p 20 v 22 (omega arith))
        (λ i. rw (n, get-put_outside p 20 v (24 + i * 4) (omega arith)))
        (λ i. rw (n, get-put_outside p 20 v (24 + i * 4 + 2) (omega arith)))

  pub layout-set_deleted_slot_count :
      (v : ℕ)
      → v < 65536
      → layout (set_deleted_slot_count p v) ≡ record (layout p) { deleted_slots = v }
  unfolding unfolding_fields set_deleted_slot_count
  layout-set_deleted_slot_count v h =
      let n = get-put_outside p 22 v 16 (omega arith) in
      Layout-ext (layout (set_deleted_slot_count p v)) (record (layout p) { deleted_slots = v }) n
        (get-put_outside p 22 v 18 (omega arith)) (get-put_outside p 22 v 20 (omega arith))
        (get-put_self p 22 v h) (λ i. rw (n, get-put_outside p 22 v (24 + i * 4) (omega arith)))
        (λ i. rw (n, get-put_outside p 22 v (24 + i * 4 + 2) (omega arith)))

  -- Bytes written above the slots change no metadata.
  pub layout-copy :
      (a : ℕ) (bs : List ℕ) → 24 + get_num_slots p * 4 ≤ a → layout (copy p a bs) ≡ layout p
  unfolding unfolding_fields
  layout-copy a bs h =
      let (n, f, b, d) = copy_counters a bs (omega arith) in
      Layout-ext (layout (copy p a bs)) (layout p) n f b d
        (λ i. rw n (ground (arith, get-copy_outside p a bs (24 + i * 4))))
        (λ i. rw n (ground (arith, get-copy_outside p a bs (24 + i * 4 + 2))))

  pub layout-put_offset :
      (s v : ℕ)
      → s < get_num_slots p
      → v < 65536
      → layout (put_u16 p (24 + s * 4) v)
        ≡ record (layout p) { offset = update (layout p).offset s v }
  unfolding unfolding_fields put_u16
  layout-put_offset s v h k =
      let a = 24 + s * 4 in
      let (n, f, b, d) = copy_counters a (to_le_bytes 2 v) (omega arith) in
      Layout-ext (layout (put_u16 p a v))
        (record (layout p) { offset = update (layout p).offset s v }) n f b d
        (λ i.
          rw n (ground (arith, get-put_outside p a v (24 + i * 4), get-put_self p a v, apart i s)))
        (λ i. rw n (ground (arith, get-put_outside p a v (24 + i * 4 + 2), apart i s)))

  pub layout-put_len :
      (s v : ℕ)
      → s < get_num_slots p
      → v < 65536
      → layout (put_u16 p (24 + s * 4 + 2) v)
        ≡ record (layout p) { len = update (layout p).len s v }
  unfolding unfolding_fields put_u16
  layout-put_len s v h k =
      let a = 24 + s * 4 + 2 in
      let (n, f, b, d) = copy_counters a (to_le_bytes 2 v) (omega arith) in
      Layout-ext (layout (put_u16 p a v)) (record (layout p) { len = update (layout p).len s v }) n
        f b d (λ i. rw n (ground (arith, get-put_outside p a v (24 + i * 4), apart i s)))
        (λ i.
          rw n
            (ground (arith, get-put_outside p a v (24 + i * 4 + 2), get-put_self p a v, apart i s)))

  -- One more slot, with its metadata zeroed.
  pub layout-claim :
      get_num_slots p + 1 < 65536
      → layout (zero_fill (set_num_slots p (get_num_slots p + 1)) (24 + get_num_slots p * 4) 4)
        ≡ record (layout p) { slots = get_num_slots p + 1 }
  unfolding unfolding_fields set_num_slots
  layout-claim h =
      let m : ℕ = get_num_slots p in
      let q : Array = put_u16 p 16 (m + 1) in
      let a : ℕ = 24 + m * 4 in
      let z : List ℕ = 0 ∷ 0 ∷ 0 ∷ 0 ∷ [] in
      let n : get_num_slots (copy q a z) ≡ m + 1 =
        get-copy_outside q a z 16 (omega arith) ∙ get-put_self p 16 (m + 1) h in
      Layout-ext (layout (copy q a z)) (record (layout p) { slots = m + 1 }) n
        (get-copy_outside q a z 18 (omega arith) ∙ get-put_outside p 16 (m + 1) 18 (omega arith))
        (get-copy_outside q a z 20 (omega arith) ∙ get-put_outside p 16 (m + 1) 20 (omega arith))
        (get-copy_outside q a z 22 (omega arith) ∙ get-put_outside p 16 (m + 1) 22 (omega arith))
        (λ i. rw n (
          ground (
            arith,
            get_zeros q a,
            get-copy_outside q a z (24 + i * 4),
            get-put_outside p 16 (m + 1) (24 + i * 4),
            apart i m,
          )))
        (λ i. rw n (
          ground (
            arith,
            get_zeros q a,
            get-copy_outside q a z (24 + i * 4 + 2),
            get-put_outside p 16 (m + 1) (24 + i * 4 + 2),
            apart i m,
          )))

-- Pages with one layout have the same counters.
pub slots-eq : (p q : Array) → layout p ≡ layout q → get_num_slots p ≡ get_num_slots q
unfolding layout
slots-eq p q e = ap (λ (l : Layout). l.slots) e
