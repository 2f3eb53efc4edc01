-- ===== src/HeapPage/Deleting.antt =====
-- `delete_value` on a well-formed page.
use crusty_db.Prelude.{
  ℕ, ◌+◌, ◌*◌, ◌<◌, ◌≤◌, ◌≡◌, ◌≢◌, refl, sym, ◌∙◌, ap, ◌⊎◌, inl, inr, List, [], Option, none, some,
  ◌==◌, ltb, if◌then◌else◌, length, arith, false, lt→ltb, ◌||◌,
}
use crusty_db.Bytes.{Array}
use crusty_db.HeapPage.Header.{
  get_num_slots, get_deleted_slot_count, set_deleted_slot_count, put_u16,
}
use crusty_db.HeapPage.Values.{delete_value}
use crusty_db.HeapPage.Layout.{Layout, layout, update, layout-set_deleted_slot_count}
use crusty_db.HeapPage.Wf.{IsPacked, IsWf, dead, dead-update, dead-le, dead-ext}
use crusty_db.HeapPage.Reading.{
  contents, contents-frame, slot_there, slot_absent, read_offset, read_len, contents_absent,
  contents_live, contents_dead, slot_cases,
}
use crusty_db.HeapPage.Freeing.{Becomes, value, freeing, freed_page, there}

-- Setting the count of deleted slots changes no value.
module _ (q : Array) (v : IsPacked (layout q)) (n : ℕ) (u : n < 65536) where
  recounted_outside : (k : ℕ) → 24 ≤ k → set_deleted_slot_count q n k ≡ q k
  unfolding set_deleted_slot_count put_u16
  recounted_outside k h = ground arith

  pub recounted-contents : (i : ℕ) → contents (set_deleted_slot_count q n) i ≡ contents q i
  unfolding layout
  recounted-contents i =
      let e = layout-set_deleted_slot_count q n u in
      contents-frame q (set_deleted_slot_count q n) i (ap (λ (l : Layout). l.offset i) e)
        (ap (λ (l : Layout). l.len i) e)
        (λ k a b live. recounted_outside k (omega (arith, v.header, v.inside i live)))

  pub recounted-IsPacked : IsPacked (layout (set_deleted_slot_count q n))
  recounted-IsPacked = rw (layout-set_deleted_slot_count q n u) (record {
    header = v.header;
    top = v.top;
    beyond = v.beyond;
    inside = v.inside;
    apart = v.apart;
    accounted = v.accounted;
  })

pub recounted_front : (q : Array) (n k : ℕ) → k < 16 → set_deleted_slot_count q n k ≡ q k
unfolding set_deleted_slot_count put_u16
recounted_front q n k a = ground arith

-- The page `q` is well-formed, with `new` in slot `s` and every other slot's value and the first
-- 16 bytes as in `p`.
pub record Changed (p q : Array) (s : ℕ) (new : Option (List ℕ)) : Type 0 where
  pub wf : IsWf (layout q)
  pub values : (i : ℕ) → contents q i ≡ (if i == s then new else contents p i)
  pub front : (k : ℕ) → k < 16 → q k ≡ p k

dead_in :
    (p q : Array) (s : ℕ) (bytes : List ℕ)
    → Becomes p q s bytes
    → dead (layout q).len (layout q).slots
      ≡ dead (update (layout p).len s (length bytes)) (get_num_slots p)
unfolding layout
dead_in p q s bytes b = rw b.slots (dead-ext (layout q).len _ (get_num_slots p) b.lens)

pub recount :
    (p q : Array) (s n : ℕ) (bytes : List ℕ)
    → n < 65536
    → dead (update (layout p).len s (length bytes)) (get_num_slots p) ≡ n
    → Becomes p q s bytes
    → Changed p (set_deleted_slot_count q n) s (value bytes)
recount p q s n bytes u d b = record {
  wf = record {
    packed = recounted-IsPacked q b.packed n u;
    counted = rw (layout-set_deleted_slot_count q n u) (dead_in p q s bytes b ∙ d);
  };
  values = λ i. recounted-contents q b.packed n u i ∙ b.values i;
  front = λ k a. recounted_front q n k a ∙ b.front k a;
}

-- With the count as it is.
pub settle :
    (p q : Array) (s : ℕ) (bytes : List ℕ)
    → dead (update (layout p).len s (length bytes)) (get_num_slots p) ≡ get_deleted_slot_count p
    → Becomes p q s bytes
    → Changed p q s (value bytes)
unfolding layout
settle p q s bytes d b = record {
  wf = record { packed = b.packed; counted = dead_in p q s bytes b ∙ d ∙ sym b.deleted };
  values = b.values;
  front = b.front;
}

-- What the two counters are on a well-formed page.
pub counts :
    (p : Array)
    → IsWf (layout p)
    → (dead (layout p).len (get_num_slots p) ≡ get_deleted_slot_count p)
      × (24 + get_num_slots p * 4 ≤ 4096)
unfolding layout
counts p w = (w.counted, omega (arith, w.packed.header, w.packed.top))

-- The test that both `delete_value` and `update_value` make passes for a live slot, and fails
-- for a slot of length 0.
pub live_guard :
    (p : Array) (s : ℕ)
    → IsPacked (layout p)
    → 0 < (layout p).len s
    → ((layout p).len s == 0 || ltb 4096 ((layout p).offset s + (layout p).len s)) ≡ false
live_guard p s v h = ground (arith, v.inside s h)

delete_live :
    (p : Array) (s : ℕ)
    → IsWf (layout p)
    → 0 < (layout p).len s
    → (q : Array) × (delete_value p s ≡ some (some q)) × Changed p q s none
unfolding delete_value
delete_live p s w h =
    let v = w.packed in
    let t = there p s v h in
    let (wrote, took, b) = freeing p s v h in
    let n : ℕ = get_deleted_slot_count (freed_page p s) + 1 in
    let u : n < 65536 =
      omega (arith, b.deleted, counts p w, dead-le (layout p).len (get_num_slots p)) in
    (
      set_deleted_slot_count (freed_page p s) n,
      rw (slot_there p s t, delete_value, read_offset p s v t, read_len p s v t)
          (rw (live_guard p s v h, wrote, took, lt→ltb n 65536 u) refl),
      recount p (freed_page p s) s n [] u
          (ground
            (arith, b.deleted, counts p w, dead-update (layout p).len s 0 (get_num_slots p) t))
          b,
    )

-- On a well-formed page `delete_value` does not panic. Where the slot has no value it returns
-- `None`; otherwise the slot loses its value, every other slot keeps its own, and the page is
-- well-formed again.
pub delete_value-Changed :
    (p : Array) (s : ℕ)
    → IsWf (layout p)
    → ((contents p s ≡ none) × (delete_value p s ≡ some none))
      ⊎ ((q : Array) × (contents p s ≢ none)
          × (delete_value p s ≡ some (some q))
          × Changed p q s none)
unfolding delete_value
delete_value-Changed p s w = elim (slot_cases p s) [
  | inl live ↦ let (q, ran, c) = delete_live p s w live in inr (q, contents_live p s live, ran, c)
  | inr (inl (t, dead_slot)) ↦ inl (
    contents_dead p s dead_slot,
    rw
        (
          slot_there p s t,
          delete_value,
          read_offset p s w.packed t,
          read_len p s w.packed t,
          dead_slot,
        )
        refl,
  )
  | inr (inr out) ↦
      inl (contents_absent p s w.packed out, rw (slot_absent p s out, delete_value) refl)
]
