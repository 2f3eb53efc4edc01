-- ===== src/MemStore.antt =====
-- src/storage/memstore/src/storage_manager.rs: the storage manager that keeps values in memory.
-- Its read-write locks are taken for a whole method, so that a method is a function of the store.
-- Writing the containers to files and reading them back is left to the file system and to serde.
pub mod Values
pub mod Updating
pub mod Scan
use crusty_db.Prelude.{
  ℕ, zero, suc, ◌+◌, ◌-◌, ◌&&◌, ◌==◌, Bool, true, false, List, [], ◌∷◌, ◌++◌, Option, none, some,
  ltb, if◌then◌else◌, OrPanic, ◌>>=◌, ◌>>◌, check,
}
use crusty_db.Ids.{ValueId}
use crusty_db.BufferPool.{put_at}

-- The derived `PartialEq` of value ids, and that of strings, which are their bytes.
unfoldable pub same_option : Option ℕ → Option ℕ → Bool
same_option none none = true
same_option none (some b) = false
same_option (some a) none = false
same_option (some a) (some b) = a == b

unfoldable pub same_id : ValueId → ValueId → Bool
unfolding same_option
same_id a b =
    (a.container_id == b.container_id)
    && (same_option a.segment_id b.segment_id
        && (same_option a.page_id b.page_id && same_option a.slot_id b.slot_id))

unfoldable pub same_name : List ℕ → List ℕ → Bool
same_name [] [] = true
same_name [] (y ∷ ys) = false
same_name (x ∷ xs) [] = false
same_name (x ∷ xs) (y ∷ ys) = (x == y) && same_name xs ys

abbrev pub ContainerMap : Type 0
ContainerMap = List (ValueId × List ℕ)

-- `get`, `remove` and `insert` of a hash map.
unfoldable pub find : ContainerMap → ValueId → Option (List ℕ)
find [] id = none
find ((k, v) ∷ m) id = if same_id k id then some v else find m id

unfoldable pub forget : ContainerMap → ValueId → ContainerMap
forget [] id = []
forget ((k, v) ∷ m) id = if same_id k id then forget m id else ((k, v) ∷ forget m id)

unfoldable pub store : ContainerMap → ValueId → List ℕ → ContainerMap
unfolding forget
store m id v = (id, v) ∷ forget m id

pub record StorageManager : Type 0 where
  pub containers : ℕ → Option ContainerMap
  pub last_insert : ℕ → Option ValueId
  pub container_names : List (List ℕ × ℕ)

pub data StoreError : Type 0 where
  file_id_not_found record_id_not_found name_exists : StoreError

pub data StoreResult (A : Type 0) : Type 0 where
  ok : A → StoreResult A
  err : StoreError → StoreResult A

-- `new_test_sm`, and what `reset` leaves.
unfoldable pub new_test_sm : StorageManager
new_test_sm = record { containers = λ c. none; last_insert = λ c. none; container_names = [] }

unfoldable pub reset : StorageManager → StorageManager
unfolding new_test_sm
reset s = new_test_sm

-- The id of the value in a slot.
abbrev pub slot_of : ℕ → ℕ → ValueId
slot_of c slot = record { container_id = c; segment_id = none; page_id = none; slot_id = some slot }

-- The slot after the last one that was given out, a u16.
unfoldable pub next_slot : Option ValueId → OrPanic ℕ
next_slot none = some 0
next_slot (some last) = do slot ← last.slot_id; check (ltb (slot + 1) 65536); some (slot + 1)

unfoldable pub insert_value : ℕ → List ℕ → StorageManager → OrPanic (StorageManager × ValueId)
unfolding next_slot store
insert_value c value s = do
  vals ← s.containers c
  slot ← next_slot (s.last_insert c)
  some (
    record s {
      containers = put_at s.containers c (some (store vals (slot_of c slot) value));
      last_insert = put_at s.last_insert c (some (slot_of c slot));
    },
    slot_of c slot,
  )

unfoldable pub insert_values :
    ℕ → List (List ℕ) → StorageManager → OrPanic (StorageManager × List ValueId)
unfolding insert_value
insert_values c [] s = some (s, [])
insert_values c (x ∷ xs) s = do
  (s', id) ← insert_value c x s
  (s'', ids) ← insert_values c xs s'
  some (s'', id ∷ ids)

-- A value that is not there is no error.
unfoldable pub delete_value : ValueId → StorageManager → StoreResult StorageManager
unfolding forget
delete_value id s = elim (s.containers id.container_id) [
  | none ↦ err file_id_not_found
  | some m ↦ ok (record s { containers = put_at s.containers id.container_id (some (forget m id)) })
]

unfoldable pub update_value :
    List ℕ → ValueId → StorageManager → OrPanic (StoreResult (StorageManager × ValueId))
unfolding delete_value insert_value
update_value value id s = elim (delete_value id s) [
  | err e ↦ some (err e)
  | ok s' ↦ do r ← insert_value id.container_id value s'; some (ok r)
]

unfoldable pub get_value : ValueId → StorageManager → StoreResult (List ℕ)
unfolding find
get_value id s = elim (s.containers id.container_id) [
  | none ↦ err file_id_not_found
  | some m ↦ elim (find m id) [ none ↦ err record_id_not_found | some v ↦ ok v ]
]

unfoldable pub named : List (List ℕ × ℕ) → List ℕ → Bool
unfolding same_name
named [] name = false
named ((n, c) ∷ ns) name = if same_name n name then true else named ns name

-- `create_container` without dependencies, which are not implemented.
unfoldable pub add_container : ℕ → StorageManager → StorageManager
add_container c s = elim (s.containers c) [
  | some m ↦ s
  | none ↦ record s { containers = put_at s.containers c (some []) }
]

unfoldable pub create_container : ℕ → Option (List ℕ) → StorageManager → StoreResult StorageManager
unfolding named add_container
create_container c none s = ok (add_container c s)
create_container c (some name) s =
    if named s.container_names name
    then err name_exists
    else ok (add_container c (record s { container_names = (name, c) ∷ s.container_names }))

unfoldable pub create_table : ℕ → StorageManager → StoreResult StorageManager
unfolding create_container
create_table c s = create_container c none s

unfoldable pub remove_container : ℕ → StorageManager → StorageManager
remove_container c s = record s { containers = put_at s.containers c none }

-- The map is shared with the store; here it is as the store has it when `next` is called.
pub record ValueIterator : Type 0 where
  pub tracker : ValueId
  pub max : ℕ
  pub table_map : ContainerMap
  pub current : ℕ

unfoldable pub get_iterator : ℕ → StorageManager → OrPanic ValueIterator
get_iterator c s = do
  m ← s.containers c
  let last : ℕ = elim (s.last_insert c) [
    | none ↦ 0
    | some id ↦ elim id.slot_id [ none ↦ 0 | some slot ↦ slot ]
  ] in
      some (record { tracker = slot_of c 0; max = last; table_map = m; current = 0 })

-- The loop of `next`, over the slots that are left; the slots are u16.
unfoldable pub next_from : ℕ → ValueIterator → OrPanic (ValueIterator × Option (List ℕ × ValueId))
unfolding find
next_from zero it = some (it, none)
next_from (suc n) it = do
  slot ← it.tracker.slot_id
  check (ltb (slot + 1) 65536 && ltb (it.current + 1) 65536)
  let it' = record it {
    tracker = record it.tracker { slot_id = some (slot + 1) };
    current = it.current + 1;
  } in
      elim (find it.table_map it.tracker) [
        | some res ↦ some (it', some (res, it'.tracker))
        | none ↦ next_from n it'
      ]

unfoldable pub next : ValueIterator → OrPanic (ValueIterator × Option (List ℕ × ValueId))
unfolding next_from
next it = next_from (it.max + 1 - it.current) it
