-- ===== src/Tests/Stores.antt =====
-- The memory store on a store with one container.
use crusty_db.Prelude.{ℕ, ◌≡◌, ◌≢◌, refl, sym, ap, List, [], ◌∷◌, Option, none, some, arith}
use crusty_db.Ids.{ValueId}
use crusty_db.BufferPool.{put_at}
use crusty_db.MemStore.{
  store, ContainerMap, StorageManager, find, slot_of, same_id, next_slot, insert_value,
  update_value, ok, next,
}
use crusty_db.MemStore.Values.{IsStore, value_of, insert_value-IsStore, insert-fresh}
use crusty_db.MemStore.Updating.{update_value-IsStore}
use crusty_db.MemStore.Scan.{iterator_at, Gives, next-Gives}

abbrev one_container : StorageManager
one_container = record { containers = λ c. some []; last_insert = λ c. none; container_names = [] }

one_container-IsStore : IsStore one_container
unfolding find
one_container-IsStore c m slot slot' e n le =
    ap (λ (o : Option ContainerMap). found_in o (slot_of c slot')) (sym e)
  where
    found_in : Option ContainerMap → ValueId → Option (List ℕ)
    found_in none id = none
    found_in (some m) id = find m id

first_slot : next_slot (one_container.last_insert 1) ≡ some 0
unfolding next_slot
first_slot = refl

insert_value_example :
    (s' : StorageManager) × (insert_value 1 (7 ∷ []) one_container ≡ some (s', slot_of 1 0))
    × (value_of one_container (slot_of 1 0) ≡ none)
    × (value_of s' (slot_of 1 0) ≡ some (7 ∷ []))
    × ((id : ValueId) → id ≢ slot_of 1 0 → value_of s' id ≡ value_of one_container id)
    × IsStore s'
insert_value_example =
    insert_value-IsStore one_container 1 [] 0 (7 ∷ []) one_container-IsStore refl first_slot

-- What that leaves.
abbrev one_value : StorageManager
one_value = record one_container {
  containers = put_at one_container.containers 1 (some (store [] (slot_of 1 0) (7 ∷ [])));
  last_insert = put_at one_container.last_insert 1 (some (slot_of 1 0));
}

new_slot_example :
    (s' : StorageManager) × (update_value (9 ∷ []) (slot_of 1 0) one_value
      ≡ some (ok (s', slot_of 1 1)))
    × (value_of s' (slot_of 1 1) ≡ some (9 ∷ []))
    × (slot_of 1 0 ≢ slot_of 1 1 → value_of s' (slot_of 1 0) ≡ none)
    × ((x : ValueId) → x ≢ slot_of 1 0 → x ≢ slot_of 1 1 → value_of s' x ≡ value_of one_value x)
    × IsStore s'
unfolding next_slot
new_slot_example =
    update_value-IsStore one_value (slot_of 1 0) (store [] (slot_of 1 0) (7 ∷ [])) 1 (9 ∷ [])
      (insert-fresh one_container 1 [] 0 (7 ∷ []) one_container-IsStore refl first_slot) refl refl

-- The values of slots 0 and 2.
abbrev two_values : ContainerMap
two_values = (slot_of 1 0, 7 ∷ []) ∷ (slot_of 1 2, 8 ∷ []) ∷ []

next_example : Gives 1 two_values 2 2 1 (next (iterator_at 1 two_values 2 1))
next_example = next-Gives 1 two_values 2 1 (omega arith) (omega arith)

-- The value of slot 2 comes with the id of slot 3.
next_of_two :
    next (iterator_at 1 two_values 2 1)
    ≡ some (iterator_at 1 two_values 2 3, some (8 ∷ [], slot_of 1 3))
unfolding next same_id
next_of_two = refl
