-- ===== src/HeapFile/Iter.antt =====
-- heap_file.rs: `HeapFileIter`, the values of a container in the order of their pages and slots.
-- The guard of the current page is the index of its frame, whose latch the iterator keeps between
-- the calls of `next`.
use crusty_db.Prelude.{
  ℕ, zero, suc, ◌+◌, ◌^◌, Bool, true, false, List, Option, none, some, ltb, if◌then◌else◌, OrPanic,
  ◌>>=◌, ◌>>◌, check,
}
use crusty_db.Ids.{ValueId, new_slot}
use crusty_db.HeapPage.Header.{get_num_slots}
use crusty_db.HeapPage.Values.{get_value}
use crusty_db.BaseFile.{Disk}
use crusty_db.BufferPool.{BufferPool}
use crusty_db.HeapFile.{num_pages, read_page, give_back_read}

pub record HeapFileIter : Type 0 where
  pub initialized : Bool
  pub finished : Bool
  pub first_page : ℕ
  pub current_page_id : ℕ
  pub current_slot_id : ℕ
  pub current_page : Option ℕ

unfoldable pub new_from : ℕ → ℕ → HeapFileIter
new_from page_id slot_id = record {
  initialized = false;
  finished = false;
  first_page = page_id;
  current_page_id = page_id;
  current_slot_id = slot_id;
  current_page = none;
}

-- `HeapFile::iter` and `HeapFile::iter_from`.
unfoldable pub iter : HeapFileIter
unfolding new_from
iter = new_from 1 0

unfoldable pub iter_from : ℕ → ℕ → HeapFileIter
unfolding new_from
iter_from page_id slot_id = new_from page_id slot_id

module _ {D : Type 0} (io : Disk D) (c : ℕ) where
  unfoldable pub initialize : HeapFileIter → BufferPool D → OrPanic (BufferPool D × HeapFileIter)
  unfolding num_pages read_page
  initialize it s =
      if it.initialized
      then some (s, it)
      else if ltb it.first_page (num_pages c s)
      then (do
        (s₁, i) ← read_page io c it.first_page s
        some (s₁, record it { current_page = some i; initialized = true }))
      else some (s, record it { finished = true; initialized = true })

  -- The end of a page: the guard is dropped, and the next page taken, if there is one.
  unfoldable pub next_page : ℕ → HeapFileIter → BufferPool D → OrPanic (BufferPool D × HeapFileIter)
  unfolding num_pages read_page give_back_read
  next_page i it s = do
    check (ltb (it.current_page_id + 1) (2 ^ 32))
    let it₁ : HeapFileIter = record it {
      current_slot_id = 0;
      current_page = none;
      current_page_id = it.current_page_id + 1;
    } in
        if ltb it₁.current_page_id (num_pages c s)
        then (do
          (s₁, j) ← read_page io c it₁.current_page_id (give_back_read i s)
          some (s₁, record it₁ { current_page = some j }))
        else some (give_back_read i s, record it₁ { finished = true })

  -- The loop of `next`, on fuel; a round either looks at a slot or goes to the next page. Running
  -- out of it counts as a panic.
  unfoldable pub next_value :
      ℕ
      → HeapFileIter
      → BufferPool D
      → OrPanic (BufferPool D × HeapFileIter × Option (List ℕ × ValueId))
  unfolding next_page
  next_value zero it s = none
  next_value (suc n) it s = elim it.current_page [
    | none ↦ some (s, it, none)
    | some i ↦
        if ltb it.current_slot_id (get_num_slots (s.frames i).page)
        then (do
          v ← get_value (s.frames i).page it.current_slot_id
          let it₁ : HeapFileIter = record it { current_slot_id = it.current_slot_id + 1 } in
              elim v [
                | none ↦ next_value n it₁ s
                | some val ↦
                    some (s, it₁, some (val, new_slot c it.current_page_id it.current_slot_id))
              ])
        else (do
          (s₁, it₁) ← next_page i it s
          if it₁.finished then some (s₁, it₁, none) else next_value n it₁ s₁)
  ]

  unfoldable pub next :
      ℕ
      → HeapFileIter
      → BufferPool D
      → OrPanic (BufferPool D × HeapFileIter × Option (List ℕ × ValueId))
  unfolding initialize next_value
  next fuel it s = do
    (s₁, it₁) ← initialize it s
    if it₁.finished then some (s₁, it₁, none) else next_value fuel it₁ s₁
