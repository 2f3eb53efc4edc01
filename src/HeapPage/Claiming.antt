-- ===== src/HeapPage/Claiming.antt =====
-- The slot that `add_value` takes: a free one, or a new one.
use crusty_db.Prelude.{
  ℕ, zero, suc, ==_iff, ◌≢◌, ◌+◌, ◌-◌, ◌*◌, ◌<◌, ◌≤◌, ◌≡◌, refl, ◌∙◌, ap, inl, inr, List, some,
  ◌==◌, length, arith, Bool-cases, true, false, le→leb, lt→ltb,
}
use crusty_db.Bytes.{Array, zero_fill}
use crusty_db.HeapPage.Header.{
  get_num_slots, set_num_slots, increment_num_slots, get_deleted_slot_count, set_deleted_slot_count,
  put_u16, get_free_space_ptr,
}
use crusty_db.HeapPage.Space.{free_slot_from}
use crusty_db.HeapPage.Values.{claim_slot}
use crusty_db.HeapPage.Layout.{Layout, layout, layout-set_deleted_slot_count, layout-claim}
use crusty_db.HeapPage.Wf.{
  IsPacked, IsWf, dead, dead-update, dead-next, dead-ext, claimed-IsPacked, dead_pos, dead-le,
}
use crusty_db.HeapPage.Reading.{contents, contents-frame, read_len}
use crusty_db.HeapPage.Freeing.{Becomes}
use crusty_db.HeapPage.Deleting.{
  Changed, counts, recounted-contents, recounted_front, recounted-IsPacked,
}
use crusty_db.HeapPage.Updating.{value-some}

-- The loop ends at the first free slot from `i` on, or behind the last slot.
pub free_slot_lem :
    (p : Array) (n i : ℕ)
    → IsPacked (layout p)
    → i + n ≡ get_num_slots p
    → (j : ℕ) × (free_slot_from p n (24 + i * 4) ≡ some (24 + j * 4))
      × (j ≤ get_num_slots p)
      × (j < get_num_slots p → (layout p).len j ≡ 0)
      × ((k : ℕ) → i ≤ k → k < j → 0 < (layout p).len k)
unfolding free_slot_from
free_slot_lem p zero i v e =
    (i, refl, omega arith, λ h. absurd (omega arith), λ k a b. absurd (omega (arith, a, b)))
free_slot_lem p (suc n) i v e =
    let (j, ran, le, free, taken) = free_slot_lem p n (i + 1) v (omega arith) in
    let step : 24 + i * 4 + 4 ≡ 24 + (i + 1) * 4 = omega arith in
    elim (Bool-cases ((layout p).len i == 0)) [
      | inl hit ↦ (
        i,
        rw (read_len p i v (omega arith), hit) refl,
        omega arith,
        λ h. ground (arith, hit),
        λ k a b. absurd (omega (arith, a, b)),
      )
      | inr miss ↦ (
        j,
        rw (read_len p i v (omega arith), miss, step) ran,
        le,
        free,
        λ k a b. elim (Bool-cases (k == i)) [
          | inl e ↦ rw ((==_iff k i).0 e) (ground (arith, miss))
          | inr e ↦ let ne : k ≢ i = λ h. ground (arith, h, e) in taken k (omega (arith, a, ne)) b
        ],
      )
    ]

-- The page `q` is `p` with slot `j` ready for a value, and the counters as they will be.
pub record Claimed (p q : Array) (j : ℕ) : Type 0 where
  pub packed : IsPacked (layout q)
  pub there : j < get_num_slots q
  pub free : (layout q).len j ≡ 0
  pub values : (i : ℕ) → contents q i ≡ contents p i
  pub front : (k : ℕ) → k < 16 → q k ≡ p k
  pub counted : dead (layout q).len (get_num_slots q) ≡ get_deleted_slot_count q + 1

-- A value stored in a claimed slot.
module _ (p q r : Array) (j : ℕ) (bytes : List ℕ) where
  pub Claimed-Changed :
      0 < length bytes → Claimed p q j → Becomes q r j bytes → Changed p r j (some bytes)
  unfolding layout
  Claimed-Changed h c b = record {
    wf = record {
      packed = b.packed;
      counted = rw b.slots (
          dead-ext (layout r).len _ (get_num_slots q) b.lens
          ∙ ground (
            arith,
            dead-update (layout q).len j (length bytes) (get_num_slots q) c.there,
            c.counted,
            c.free,
            b.deleted,
          ));
    };
    values = λ i. b.values i ∙ rw (value-some bytes h, c.values i) refl;
    front = λ k a. b.front k a ∙ c.front k a;
  }

-- The page with one more slot.
pub enlarged : Array → Array
enlarged p = zero_fill (set_num_slots p (get_num_slots p + 1)) (24 + get_num_slots p * 4) 4

module _ (p : Array) (w : IsWf (layout p)) where
  count_fits : get_deleted_slot_count p < 65536
  count_fits = omega (arith, counts p w, dead-le (layout p).len (get_num_slots p))

  -- A free slot, taken off the count.
  pub reused : Array
  reused = set_deleted_slot_count p (get_deleted_slot_count p - 1)

  module _ (j : ℕ) (h : j < get_num_slots p) (free : (layout p).len j ≡ 0) where
    some_dead : 0 < get_deleted_slot_count p
    some_dead = omega (arith, counts p w, dead_pos (layout p).len j (get_num_slots p) h free)

    pub layout-reused :
        layout reused ≡ record (layout p) { deleted_slots = get_deleted_slot_count p - 1 }
    unfolding reused
    layout-reused = layout-set_deleted_slot_count p _ (omega (arith, count_fits))

    pub claim_reused : claim_slot p (24 + j * 4) false ≡ some reused
    unfolding claim_slot reused
    claim_reused = rw (lt→ltb 0 (get_deleted_slot_count p) some_dead) refl

    pub reused-Claimed : Claimed p reused j
    unfolding layout reused
    reused-Claimed =
        let n : get_num_slots reused ≡ get_num_slots p =
          ap (λ (l : Layout). l.slots) layout-reused in
        let f : (layout reused).len ≡ (layout p).len = ap (λ (l : Layout). l.len) layout-reused in
        let d : get_deleted_slot_count reused ≡ get_deleted_slot_count p - 1 =
          ap (λ (l : Layout). l.deleted_slots) layout-reused in
        record {
          packed = recounted-IsPacked p w.packed _ (omega (arith, count_fits));
          there = rw n h;
          free = ap (λ (l : Layout). l.len j) layout-reused ∙ free;
          values = recounted-contents p w.packed _ (omega (arith, count_fits));
          front = recounted_front p _;
          counted = rw (n, f, d) (omega (arith, counts p w, some_dead));
        }

  module _ (room : 24 + get_num_slots p * 4 + 4 ≤ get_free_space_ptr p) where
    ptr_top : get_free_space_ptr p ≤ 4096
    unfolding layout
    ptr_top = w.packed.top

    pub layout-enlarged : layout (enlarged p) ≡ record (layout p) { slots = get_num_slots p + 1 }
    unfolding enlarged
    layout-enlarged = layout-claim p (omega (arith, ptr_top))

    pub claim_enlarged : claim_slot p (24 + get_num_slots p * 4) true ≡ some (enlarged p)
    unfolding claim_slot increment_num_slots enlarged
    claim_enlarged =
        rw
          (
            lt→ltb (get_num_slots p + 1) 65536 (omega (arith, ptr_top)),
            le→leb (24 + get_num_slots p * 4 + 4) 4096 (omega (arith, ptr_top)),
          )
          refl

    enlarged_outside : (k : ℕ) → 24 + get_num_slots p * 4 + 4 ≤ k → enlarged p k ≡ p k
    unfolding enlarged set_num_slots put_u16
    enlarged_outside k h = ground arith

    enlarged_front : (k : ℕ) → k < 16 → enlarged p k ≡ p k
    unfolding enlarged set_num_slots put_u16
    enlarged_front k h = ground arith

    enlarged-contents : (i : ℕ) → contents (enlarged p) i ≡ contents p i
    unfolding layout
    enlarged-contents i =
        contents-frame p (enlarged p) i (ap (λ (l : Layout). l.offset i) layout-enlarged)
          (ap (λ (l : Layout). l.len i) layout-enlarged)
          (λ k a b live. enlarged_outside k (omega (arith, w.packed.inside i live)))

    pub enlarged-Claimed : Claimed p (enlarged p) (get_num_slots p)
    unfolding layout
    enlarged-Claimed =
        let n : get_num_slots (enlarged p) ≡ get_num_slots p + 1 =
          ap (λ (l : Layout). l.slots) layout-enlarged in
        let f : (layout (enlarged p)).len ≡ (layout p).len =
          ap (λ (l : Layout). l.len) layout-enlarged in
        let d : get_deleted_slot_count (enlarged p) ≡ get_deleted_slot_count p =
          ap (λ (l : Layout). l.deleted_slots) layout-enlarged in
        let z : (layout p).len (get_num_slots p) ≡ 0 =
          w.packed.beyond (get_num_slots p) (omega arith) in
        record {
          packed = rw layout-enlarged (claimed-IsPacked (layout p) w.packed room);
          there = rw n (omega arith);
          free = ap (λ (l : Layout). l.len (get_num_slots p)) layout-enlarged ∙ z;
          values = enlarged-contents;
          front = enlarged_front;
          counted =
              rw (n, f, d)
                (ground (arith, counts p w, dead-next (layout p).len (get_num_slots p), z));
        }
