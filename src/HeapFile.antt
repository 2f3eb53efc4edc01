-- ===== src/HeapFile.antt =====
-- src/storage/heapstore/src/heap_file.rs: the values of a container, on the heap pages that the
-- buffer pool serves. A guard of a page is the index of its frame; it is dropped where the
-- source's scope ends. `none` is a panic, which a refusal of the pool is too where the source
-- unwraps it.
pub mod Guards
pub mod Edits
pub mod Stored
pub mod Scanning
pub mod Iter
use crusty_db.Prelude.{
  ℕ, zero, suc, ◌+◌, ◌-◌, Bool, true, false, List, [], ◌∷◌, Option, none, some, leb, if◌then◌else◌,
  OrPanic, ◌>>=◌,
}
use crusty_db.Bytes.{Array}
use crusty_db.Ids.{ValueId, new_slot}
use crusty_db.Page.{get_page_id}
use crusty_db.HeapPage.Header.{init_heap_page}
use crusty_db.HeapPage.Values.{get_value, add_value, delete_value, update_value}
use crusty_db.BaseFile.{Disk}
use crusty_db.BufferPool.{
  ContainerPageId, BufferFrame, BufferPool, set_frame, Reply, ok, err, MemPoolStatus, indices_from,
}
use crusty_db.BufferPool.Catalog.{get_container_page_count}
use crusty_db.BufferPool.Frames.{drop_read, drop_write}
use crusty_db.BufferPool.Pages.{get_page_for_read, get_page_for_write, create_new_page_for_write}

pub data FileError : Type 0 where
  page_not_found value_not_found value_deleted slot_not_found delete_failed too_large : FileError
  pool_error : MemPoolStatus → FileError

-- `Result<A, CrustyError>`.
pub data FileResult (A : Type 0) : Type 0 where
  done : A → FileResult A
  failed : FileError → FileResult A

-- `ok_or_else`.
abbrev pub ok_or : {A : Type 0} → Option A → FileError → FileResult A
ok_or none e = failed e
ok_or (some a) e = done a

abbrev pub key : ℕ → ℕ → ContainerPageId
key c page_id = record { c_id = c; page_id = page_id }

module _ {D : Type 0} where
  -- A write through the guard of frame `i`, and the guards' drops.
  unfoldable pub edit : ℕ → Array → BufferPool D → BufferPool D
  edit i a s = set_frame i (record (s.frames i) { page = a }) s

  unfoldable pub give_back : ℕ → BufferPool D → BufferPool D
  give_back i s = set_frame i (drop_write (s.frames i)) s

  unfoldable pub give_back_read : ℕ → BufferPool D → BufferPool D
  give_back_read i s = set_frame i (drop_read (s.frames i)) s

  unfoldable pub num_pages : ℕ → BufferPool D → ℕ
  num_pages c s = elim (get_container_page_count c s) [ none ↦ 0 | some n ↦ n ]

-- `unwrap`.
abbrev pub unwrap : {D A : Type 0} → BufferPool D × Reply A → OrPanic (BufferPool D × A)
unwrap (s, ok a) = some (s, a)
unwrap (s, err e) = none

module _ {D : Type 0} (io : Disk D) (c : ℕ) where
  unfoldable pub read_page : ℕ → BufferPool D → OrPanic (BufferPool D × ℕ)
  read_page page_id s = get_page_for_read io (key c page_id) s >>= unwrap

  unfoldable pub write_page : ℕ → BufferPool D → OrPanic (BufferPool D × ℕ)
  write_page page_id s = get_page_for_write io (key c page_id) s >>= unwrap

  unfoldable pub get_val : ℕ → ℕ → BufferPool D → OrPanic (BufferPool D × FileResult (List ℕ))
  unfolding num_pages read_page give_back_read
  get_val page_id slot_id s =
      if leb (num_pages c s) page_id then some (s, failed page_not_found) else (do
        (s₁, i) ← read_page page_id s
        v ← get_value (s₁.frames i).page slot_id
        some (give_back_read i s₁, ok_or v value_not_found))

  unfoldable pub delete_val : ℕ → ℕ → BufferPool D → OrPanic (BufferPool D × FileResult (Unit {0}))
  unfolding num_pages write_page give_back edit
  delete_val page_id slot_id s =
      if leb (num_pages c s) page_id then some (s, failed page_not_found) else (do
        (s₁, i) ← write_page page_id s
        r ← delete_value (s₁.frames i).page slot_id
        elim r [
          | none ↦ some (give_back i s₁, failed value_deleted)
          | some q ↦ some (give_back i (edit i q s₁), done tt)
        ])

  -- The loop of `add_val` over the pages that are there.
  unfoldable pub add_to_some :
      List ℕ → List ℕ → BufferPool D → OrPanic (BufferPool D × Option ValueId)
  unfolding write_page give_back edit
  add_to_some val [] s = some (s, none)
  add_to_some val (page_id ∷ rest) s = do
    (s₁, i) ← write_page page_id s
    r ← add_value (s₁.frames i).page val
    elim r [
      | none ↦ add_to_some val rest (give_back i s₁)
      | some (q, slot_id) ↦ some (give_back i (edit i q s₁), some (new_slot c page_id slot_id))
    ]

  -- The end of `add_val`, with the frame of a new page.
  unfoldable pub add_to_new :
      List ℕ → ℕ → BufferPool D → OrPanic (BufferPool D × FileResult ValueId)
  unfolding give_back edit
  add_to_new val i s = do
    let p = init_heap_page (s.frames i).page
    let s₁ = edit i p s
    r ← add_value p val
    elim r [
      | none ↦ some (give_back i s₁, failed too_large)
      | some (q, slot_id) ↦
          some (give_back i (edit i q s₁), done (new_slot c (get_page_id p) slot_id))
    ]

  unfoldable pub add_val : List ℕ → BufferPool D → OrPanic (BufferPool D × FileResult ValueId)
  unfolding num_pages add_to_some add_to_new
  add_val val s = do
    (s₁, found) ← add_to_some val (indices_from 1 (num_pages c s - 1)) s
    elim found [
      | some id ↦ some (s₁, done id)
      | none ↦ do
        (s₂, r) ← create_new_page_for_write io c s₁
        elim r [ err e ↦ some (s₂, failed (pool_error e)) | ok i ↦ add_to_new val i s₂ ]
    ]

  -- What `update_val` does when the value does not fit its page: the value goes, and is added.
  unfoldable pub move_val :
      List ℕ → ℕ → ℕ → BufferPool D → OrPanic (BufferPool D × FileResult ValueId)
  unfolding give_back edit add_val
  move_val val slot_id i s = do
    v ← get_value (s.frames i).page slot_id
    elim v [
      | none ↦ some (give_back i s, failed slot_not_found)
      | some _ ↦ do
        r ← delete_value (s.frames i).page slot_id
        elim r [
          | none ↦ some (give_back i s, failed delete_failed)
          | some q ↦ add_val val (give_back i (edit i q s))
        ]
    ]

  unfoldable pub update_val :
      ℕ → ℕ → List ℕ → BufferPool D → OrPanic (BufferPool D × FileResult ValueId)
  unfolding num_pages write_page give_back edit move_val
  update_val page_id slot_id val s =
      if leb (num_pages c s) page_id then some (s, failed page_not_found) else (do
        (s₁, i) ← write_page page_id s
        r ← update_value (s₁.frames i).page slot_id val
        elim r [
          | none ↦ move_val val slot_id i s₁
          | some q ↦ some (give_back i (edit i q s₁), done (new_slot c page_id slot_id))
        ])

  -- `HeapFile::new`: page 0 is the header page.
  unfoldable pub new : BufferPool D → OrPanic (BufferPool D × FileResult (Unit {0}))
  unfolding give_back
  new s = do
    (s₁, r) ← create_new_page_for_write io c s
    elim r [ err e ↦ some (s₁, failed (pool_error e)) | ok i ↦ some (give_back i s₁, done tt) ]
