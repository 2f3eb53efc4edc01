-- ===== src/BufferPool/Serving.antt =====
-- buffer_pool.rs: the choice of a victim, and the methods that give a page for reading or writing.
-- A page is given as the index of its frame, whose latch the caller then holds.
use crusty_db.Prelude.{
  ℕ, false, List, [], ◌∷◌, ◌++◌, Option, none, some, ltb, if◌then◌else◌, OrPanic, ◌>>=◌, ◌>>◌,
  check,
}
use crusty_db.BaseFile.{Disk, read_page}
use crusty_db.BufferPool.{
  ContainerPageId, BufferFrame, BufferPool, set_frame, Reply, ok, err, base_file_error, PageToFrame,
}
use crusty_db.BufferPool.Mapping.{get, insert, remove}
use crusty_db.BufferPool.Catalog.{get_container, write_to}
use crusty_db.BufferPool.Frames.{try_write, drop_write}

-- The frame's old mapping, which must be there, goes.
unfoldable pub unmap : Option ContainerPageId → PageToFrame → OrPanic PageToFrame
unfolding remove
unmap none m = some m
unmap (some old_key) m = let (was, m') = remove m old_key in was >>= λ i. some m'

module _ {D : Type 0} where
  -- The loop of `choose_victim` over the hints that are left.
  unfoldable pub pop_hints : List ℕ → BufferPool D → OrPanic (BufferPool D × Option ℕ)
  unfolding set_frame
  pop_hints [] s = some (record s { eviction_hints = [] }, none)
  pop_hints (v ∷ rest) s =
      let next = pop_hints rest s in
      if ltb v s.num_frames
      then elim (try_write false (s.frames v)) [
        | none ↦ next
        | some f ↦ some (set_frame v f (record s { eviction_hints = rest }), some v)
      ]
      else none

  -- `choose_victim`; `choose_eviction_candidate`, its last resort, always returns `None`.
  unfoldable pub choose_victim : BufferPool D → OrPanic (BufferPool D × Option ℕ)
  unfolding pop_hints
  choose_victim s = pop_hints s.eviction_hints s

  -- A page that is in memory: its frame is latched by `take_latch`, or the call is refused.
  unfoldable pub grant :
      (BufferFrame → Option BufferFrame)
      → Reply ℕ
      → ℕ
      → BufferPool D
      → OrPanic (BufferPool D × Reply ℕ)
  grant take_latch refusal index s = do
    check (ltb index s.num_frames)
    elim (take_latch (s.frames index)) [
      | none ↦ some (s, refusal)
      | some f ↦ some (set_frame index f s, ok index)
    ]

  -- The mapping of a page to a victim, in place of the victim's old mapping.
  unfoldable pub remap : ContainerPageId → ℕ → BufferPool D → OrPanic (BufferPool D)
  unfolding unmap
  remap k victim s = do
    m ← unmap (s.frames victim).key s.page_to_frame
    m' ← insert m k victim
    some (record s { page_to_frame = m' })

module _ {D : Type 0} (io : Disk D) where
  -- `write_victim_to_disk_if_dirty_w`, and `_r`.
  unfoldable pub write_back : ℕ → BufferPool D → OrPanic (BufferPool D × Reply (Unit {0}))
  unfolding get_container write_to
  write_back i s =
      let f = s.frames i in
      elim f.key [
        | none ↦ some (s, ok tt)
        | some k ↦
            if f.is_dirty
            then (do
              (s', x) ← get_container io k.c_id (set_frame i (record f { is_dirty = false }) s)
              write_to io k.c_id k.page_id x f.page s')
            else some (s, ok tt)
      ]

  -- Reads a page from its file into the victim; an error leaves the victim's key, and drops the
  -- guard.
  unfoldable pub load : ContainerPageId → ℕ → BufferPool D → OrPanic (BufferPool D × Reply ℕ)
  load k victim s = do
    (s', x) ← get_container io k.c_id s
    let f = s'.frames victim in
        do
          (whole, page) ← read_page io s'.disk k.c_id k.page_id f.page
          (if whole
              then some (set_frame victim (record f { key = some k; page = page }) s', ok victim)
              else some (
                set_frame victim (drop_write (record f { page = page })) s',
                err base_file_error,
              ))

  -- A page that was not in memory, once a clean victim is there: what is done under the exclusive
  -- latch and after it. `finish` is what is left to do with a page that has been read.
  unfoldable pub fault :
      (BufferFrame → Option BufferFrame)
      → Reply ℕ
      → (ℕ → BufferPool D → OrPanic (BufferPool D × Reply ℕ))
      → ContainerPageId
      → ℕ
      → BufferPool D
      → OrPanic (BufferPool D × Reply ℕ)
  unfolding grant remap load
  fault take_latch refusal finish k victim s = elim (get s.page_to_frame k) [
    | some index ↦ (do
      (s', r) ← grant take_latch refusal index s
      let s'' = record s' { eviction_hints = s'.eviction_hints ++ (index ∷ []) } in
          some (set_frame victim (drop_write (s''.frames victim)) s'', r))
    | none ↦ (do
      s' ← remap k victim s
      (s'', r) ← load k victim s'
      elim r [ err e ↦ some (s'', err e) | ok i ↦ finish i s'' ])
  ]
