-- ===== src/MemStore/Values.antt =====
-- The values of the store as a map from value id to bytes.
use crusty_db.Prelude.{
  ℕ, ◌+◌, ◌<◌, ◌≤◌, ◌==◌, ◌≡◌, ◌≢◌, ◌↔◌, refl, sym, ◌∙◌, ap, inl, inr, true, List, [], ◌∷◌, Option,
  none, some, arith, ==_iff, Bool-cases, ltb,
}
use crusty_db.Ids.{ValueId}
use crusty_db.BufferPool.{put_at}
use crusty_db.BufferPool.Framing.{put_at_self, put_at_other}
use crusty_db.MemStore.{
  same_option, same_id, ContainerMap, find, forget, store, StorageManager, slot_of, next_slot,
  insert_value,
}

same_option_iff : (a b : Option ℕ) → (same_option a b ≡ true) ↔ (a ≡ b)
unfolding same_option
same_option_iff none none = ground arith
same_option_iff none (some b) = ground arith
same_option_iff (some a) none = ground arith
same_option_iff (some a) (some b) = ground (arith, ==_iff a b)

pub same_id_iff : (a b : ValueId) → (same_id a b ≡ true) ↔ (a ≡ b)
unfolding same_id
same_id_iff a b = ground (
  arith,
  same_option_iff a.segment_id b.segment_id,
  same_option_iff a.page_id b.page_id,
  same_option_iff a.slot_id b.slot_id,
)

pub find-forget_self : (m : ContainerMap) (id : ValueId) → find (forget m id) id ≡ none
unfolding find forget
find-forget_self [] id = refl
find-forget_self ((k, v) ∷ m) id = elim (Bool-cases (same_id k id)) [
  | inl e ↦ rw e (find-forget_self m id)
  | inr e ↦ rw (e, e) (find-forget_self m id)
]

pub find-forget_ne :
    (m : ContainerMap) (id id' : ValueId) → id ≢ id' → find (forget m id) id' ≡ find m id'
unfolding find forget
find-forget_ne [] id id' ne = refl
find-forget_ne ((k, v) ∷ m) id id' ne =
    ground (arith, find-forget_ne m id id' ne, same_id_iff k id, same_id_iff k id')

-- The bytes of a value id, if it has any.
abbrev pub found : Option ContainerMap → ValueId → Option (List ℕ)
found none id = none
found (some m) id = find m id

abbrev pub value_of : StorageManager → ValueId → Option (List ℕ)
value_of s id = found (s.containers id.container_id) id

-- No container has a value in a slot that has not been given out.
abbrev pub IsStore : StorageManager → Type 0
IsStore s =
    (c : ℕ) (m : ContainerMap) (slot slot' : ℕ)
    → s.containers c ≡ some m
    → next_slot (s.last_insert c) ≡ some slot
    → slot ≤ slot'
    → find m (slot_of c slot') ≡ none

-- The map of one container changed.
pub value-put_at :
    (s : StorageManager) (c : ℕ) (m m' : ContainerMap) (id : ValueId)
    → s.containers c ≡ some m
    → (id.container_id ≡ c → find m' id ≡ find m id)
    → found (put_at s.containers c (some m') id.container_id) id ≡ value_of s id
value-put_at s c m m' id e same = elim (Bool-cases (id.container_id == c)) [
  | inl q ↦
      let here : id.container_id ≡ c = (==_iff id.container_id c).0 q in
      ap (λ (o : Option ContainerMap). found o id)
        (ap (put_at s.containers c (some m')) here ∙ put_at_self s.containers c (some m'))
      ∙ same here
      ∙ sym (ap (λ (o : Option ContainerMap). found o id) (ap s.containers here ∙ e))
  | inr q ↦
      ap (λ (o : Option ContainerMap). found o id)
        (put_at_other s.containers c id.container_id (some m')
          (λ h. cc (q, (==_iff id.container_id c).1 h)))
]

other_value :
    (m : ContainerMap) (id id' : ValueId) (value : List ℕ)
    → id ≢ id'
    → find (store m id value) id' ≡ find m id'
unfolding find store
other_value m id id' value ne = ground (arith, ne, same_id_iff id id', find-forget_ne m id id' ne)

after_slot : (c slot a : ℕ) → next_slot (some (slot_of c slot)) ≡ some a → slot < a
unfolding next_slot
after_slot c slot a e = elim (Bool-cases (ltb (slot + 1) 65536)) [
  | inl q ↦ ground (arith, e, q)
  | inr q ↦ absurd (ground (arith, e, q))
]

pub insert-fresh :
    (s : StorageManager) (c : ℕ) (m : ContainerMap) (slot : ℕ) (value : List ℕ)
    → IsStore s
    → s.containers c ≡ some m
    → next_slot (s.last_insert c) ≡ some slot
    → IsStore (record s {
      containers = put_at s.containers c (some (store m (slot_of c slot) value));
      last_insert = put_at s.last_insert c (some (slot_of c slot));
    })
unfolding next_slot
insert-fresh s c m slot value p e n c' m' a b e' n' le = elim (Bool-cases (c' == c)) [
  | inl q ↦
      let here : c' ≡ c = (==_iff c' c).0 q in
      let map_here : m' ≡ store m (slot_of c slot) value =
        ground
          (arith, e', here, put_at_self s.containers c (some (store m (slot_of c slot) value))) in
      let later : slot < a = after_slot c slot a (n_here c' here n') in
      rw (here, map_here)
        (other_value m (slot_of c slot) (slot_of c b) value
            (λ same. absurd (ground (arith, same, later, le)))
          ∙ p c m slot b e n (omega (arith, later, le)))
  | inr q ↦
      let ne : c' ≢ c = λ h. cc (q, (==_iff c' c).1 h) in
      p c' m' a b
        (sym (put_at_other s.containers c c' (some (store m (slot_of c slot) value)) ne) ∙ e')
        (ap next_slot (sym (put_at_other s.last_insert c c' (some (slot_of c slot)) ne)) ∙ n') le
]
  where
    n_here :
        (c' : ℕ)
        → c' ≡ c
        → next_slot (put_at s.last_insert c (some (slot_of c slot)) c') ≡ some a
        → next_slot (some (slot_of c slot)) ≡ some a
    n_here c' h e =
        ap next_slot (
          sym (
            ap (put_at s.last_insert c (some (slot_of c slot))) h
            ∙ put_at_self s.last_insert c (some (slot_of c slot))))
        ∙ e

-- In a store that has no value in a slot not given out, and for a container that it has, whose
-- slots have not run out: `insert_value` returns an id that had no value and now has this one;
-- every other id has the value that it had, and the store is as before in this respect.
pub insert_value-IsStore :
    (s : StorageManager) (c : ℕ) (m : ContainerMap) (slot : ℕ) (value : List ℕ)
    → IsStore s
    → s.containers c ≡ some m
    → next_slot (s.last_insert c) ≡ some slot
    → (s' : StorageManager) × (insert_value c value s ≡ some (s', slot_of c slot))
      × (value_of s (slot_of c slot) ≡ none)
      × (value_of s' (slot_of c slot) ≡ some value)
      × ((id : ValueId) → id ≢ slot_of c slot → value_of s' id ≡ value_of s id)
      × IsStore s'
unfolding insert_value store find
insert_value-IsStore s c m slot value p e n = (
  record s {
    containers = put_at s.containers c (some (store m (slot_of c slot) value));
    last_insert = put_at s.last_insert c (some (slot_of c slot));
  },
  rw (insert_value, e, n) refl,
  rw e (p c m slot slot e n (omega arith)),
  rw (put_at_self s.containers c (some (store m (slot_of c slot) value)))
      (rw ((same_id_iff (slot_of c slot) (slot_of c slot)).1 refl) refl),
  λ id ne.
      value-put_at s c m (store m (slot_of c slot) value) id e
        (λ h. other_value m (slot_of c slot) id value (λ same. ne (sym same))),
  insert-fresh s c m slot value p e n,
)
