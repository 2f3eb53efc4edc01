-- ===== src/MemStore/Updating.antt =====
-- Deleting and updating the values of the store.
use crusty_db.Prelude.{
  ℕ, ◌==◌, ◌≡◌, ◌≢◌, refl, sym, ◌∙◌, ap, inl, inr, List, Option, none, some, arith, ==_iff,
  Bool-cases,
}
use crusty_db.Ids.{ValueId}
use crusty_db.BufferPool.{put_at}
use crusty_db.BufferPool.Framing.{put_at_self, put_at_other}
use crusty_db.MemStore.{
  same_id, ContainerMap, find, forget, StorageManager, ok, slot_of, next_slot, delete_value,
  update_value,
}
use crusty_db.MemStore.Values.{
  same_id_iff, find-forget_self, find-forget_ne, found, value_of, value-put_at, IsStore,
  insert_value-IsStore,
}

find-forget_absent :
    (m : ContainerMap) (id x : ValueId) → find m x ≡ none → find (forget m id) x ≡ none
find-forget_absent m id x e = elim (Bool-cases (same_id id x)) [
  | inl q ↦ ap (find (forget m id)) (sym ((same_id_iff id x).0 q)) ∙ find-forget_self m id
  | inr q ↦ find-forget_ne m id x (λ h. cc (q, (same_id_iff id x).1 h)) ∙ e
]

forget-IsStore :
    (s : StorageManager) (id : ValueId) (m : ContainerMap)
    → IsStore s
    → s.containers id.container_id ≡ some m
    → IsStore (record s { containers = put_at s.containers id.container_id (some (forget m id)) })
forget-IsStore s id m p e c' m' a b e' n' le = elim (Bool-cases (c' == id.container_id)) [
  | inl q ↦
      let here : c' ≡ id.container_id = (==_iff c' id.container_id).0 q in
      let map_here : m' ≡ forget m id =
        ground (arith, e', here, put_at_self s.containers id.container_id (some (forget m id))) in
      rw map_here
        (find-forget_absent m id (slot_of c' b) (p c' m a b (ap s.containers here ∙ e) n' le))
  | inr q ↦
      p c' m' a b
        (sym (
            put_at_other s.containers id.container_id c' (some (forget m id))
              (λ h. cc (q, (==_iff c' id.container_id).1 h)))
          ∙ e')
        n' le
]

-- For a container that the store has: `delete_value` succeeds, the id has no value any more, every
-- other id has the value that it had.
delete_value-IsStore :
    (s : StorageManager) (id : ValueId) (m : ContainerMap)
    → IsStore s
    → s.containers id.container_id ≡ some m
    → (s' : StorageManager) × (delete_value id s ≡ ok s')
      × (value_of s' id ≡ none)
      × ((x : ValueId) → x ≢ id → value_of s' x ≡ value_of s x)
      × (s'.containers id.container_id ≡ some (forget m id))
      × (s'.last_insert ≡ s.last_insert)
      × IsStore s'
unfolding delete_value
delete_value-IsStore s id m p e = (
  record s { containers = put_at s.containers id.container_id (some (forget m id)) },
  rw (delete_value, e) refl,
  ap (λ (o : Option ContainerMap). found o id)
        (put_at_self s.containers id.container_id (some (forget m id)))
      ∙ find-forget_self m id,
  λ x ne.
      value-put_at s id.container_id m (forget m id) x e
        (λ h. find-forget_ne m id x (λ same. ne (sym same))),
  put_at_self s.containers id.container_id (some (forget m id)),
  refl,
  forget-IsStore s id m p e,
)

-- In a store that has no value in a slot not given out, for an id of a container that it has, and
-- whose slots have not run out: `update_value` returns a new id, which has the value; the old id
-- has none, unless it is the new one; every other id has the value that it had, and the store is
-- as before in this respect.
pub update_value-IsStore :
    (s : StorageManager) (id : ValueId) (m : ContainerMap) (slot : ℕ) (value : List ℕ)
    → IsStore s
    → s.containers id.container_id ≡ some m
    → next_slot (s.last_insert id.container_id) ≡ some slot
    → (s' : StorageManager) × (update_value value id s
        ≡ some (ok (s', slot_of id.container_id slot)))
      × (value_of s' (slot_of id.container_id slot) ≡ some value)
      × (id ≢ slot_of id.container_id slot → value_of s' id ≡ none)
      × ((x : ValueId) → x ≢ id → x ≢ slot_of id.container_id slot → value_of s' x ≡ value_of s x)
      × IsStore s'
unfolding update_value
update_value-IsStore s id m slot value p e n =
    let (s₁, deleted, gone, others, here, last, p₁) = delete_value-IsStore s id m p e in
    let (s₂, inserted, fresh, new, others', p₂) =
      insert_value-IsStore s₁ id.container_id (forget m id) slot value p₁ here
        (ap (λ l. next_slot (l id.container_id)) last ∙ n) in
    (
      s₂,
      rw (update_value, deleted, inserted) refl,
      new,
      λ ne. others' id ne ∙ gone,
      λ x ne ne'. others' x ne' ∙ others x ne,
      p₂,
    )
