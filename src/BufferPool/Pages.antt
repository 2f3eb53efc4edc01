-- ===== src/BufferPool/Pages.antt =====
-- buffer_pool.rs: `BufferPool`'s methods on containers and pages.
use crusty_db.Prelude.{
  ℕ, not, ◌||◌, Bool, true, false, List, ◌++◌, Option, none, some, ltb, if◌then◌else◌, map, OrPanic,
  ◌>>=◌, ◌>>◌, check,
}
use crusty_db.Page.{set_page_id}
use crusty_db.BaseFile.{Disk}
use crusty_db.BufferPool.{
  ContainerPageId, same_key, BufferFrame, BufferPool, set_frame, Reply, ok, err,
  frame_write_latch_grant_failed, frame_read_latch_grant_failed, cannot_evict_page,
}
use crusty_db.BufferPool.Mapping.{get, insert, contains_key, iter_container}
use crusty_db.BufferPool.Catalog.{register_container, inc_page_count, set_temp}
use crusty_db.BufferPool.Frames.{try_read, try_write, downgrade_guard, drop_write}
use crusty_db.BufferPool.Serving.{choose_victim, grant, unmap, write_back, fault}

-- `PageFrameId`: a page's key with a guess of its frame.
pub record PageFrameId : Type 0 where
  pub p_key : ContainerPageId
  pub frame_id : ℕ

-- Whether a frame's latch can be had for reading, and the frame has the key.
unfoldable pub shows_key : ContainerPageId → BufferFrame → Bool
unfolding try_read
shows_key k f = elim (try_read f) [
  | none ↦ false
  | some g ↦ elim g.key [ none ↦ false | some k' ↦ same_key k' k ]
]

module _ {D : Type 0} where
  unfoldable pub is_in_mem : PageFrameId → BufferPool D → Bool
  unfolding shows_key
  is_in_mem key s =
      if ltb key.frame_id s.num_frames
      then shows_key key.p_key (s.frames key.frame_id) || contains_key s.page_to_frame key.p_key
      else contains_key s.page_to_frame key.p_key

  -- `get_page_ids_in_mem`.
  unfoldable pub get_page_ids_in_mem : ℕ → BufferPool D → List PageFrameId
  get_page_ids_in_mem c s =
      map (λ (e : ContainerPageId × ℕ). record { p_key = e.0; frame_id = e.1 })
        (iter_container s.page_to_frame c)

module _ {D : Type 0} (io : Disk D) where
  unfoldable pub create_container : ℕ → Bool → BufferPool D → OrPanic (BufferPool D)
  create_container c is_temp s = register_container io c is_temp s

  -- The frames of the container's pages become hints.
  unfoldable pub drop_container : ℕ → BufferPool D → OrPanic (BufferPool D)
  drop_container c s = do
    s' ← set_temp io c true s
    some (record s' {
      eviction_hints =
          s'.eviction_hints
          ++ map (λ (e : ContainerPageId × ℕ). e.1) (iter_container s'.page_to_frame c);
    })

  -- What `get_page_for_write` and `get_page_for_read` share: a page in memory is latched where
  -- it is; otherwise a victim is chosen and written back, which must succeed.
  unfoldable pub get_page :
      (BufferFrame → Option BufferFrame)
      → Reply ℕ
      → (ℕ → BufferPool D → OrPanic (BufferPool D × Reply ℕ))
      → ContainerPageId
      → BufferPool D
      → OrPanic (BufferPool D × Reply ℕ)
  unfolding get grant fault write_back choose_victim
  get_page take_latch refusal finish k s = elim (get s.page_to_frame k) [
    | some index ↦ grant take_latch refusal index s
    | none ↦ (do
      (s₁, choice) ← choose_victim s
      elim choice [
        | none ↦ some (s₁, err cannot_evict_page)
        | some victim ↦ (do
          (s₂, written) ← write_back io victim s₁
          elim written [
            | err e ↦ none
            | ok _ ↦ (do
              check (not (s₂.frames victim).is_dirty)
              fault io take_latch refusal finish k victim s₂)
          ])
      ])
  ]

  unfoldable pub get_page_for_write :
      ContainerPageId → BufferPool D → OrPanic (BufferPool D × Reply ℕ)
  unfolding get_page
  get_page_for_write k s =
      get_page (try_write true) (err frame_write_latch_grant_failed)
        (λ i s'. some (set_frame i (record (s'.frames i) { is_dirty = true }) s', ok i)) k s

  unfoldable pub get_page_for_read :
      ContainerPageId → BufferPool D → OrPanic (BufferPool D × Reply ℕ)
  unfolding get_page
  get_page_for_read k s =
      get_page try_read (err frame_read_latch_grant_failed)
        (λ i s'. do f ← downgrade_guard (s'.frames i); some (set_frame i f s', ok i)) k s

  -- The end of `create_new_page_for_write`, with a victim that is written back.
  unfoldable pub new_page_in : ℕ → ℕ → BufferPool D → OrPanic (BufferPool D × Reply ℕ)
  unfolding unmap insert inc_page_count
  new_page_in c victim s = do
    m ← unmap (s.frames victim).key s.page_to_frame
    (s₁, page_id) ← inc_page_count io c 1 (record s { page_to_frame = m })
    let k : ContainerPageId = record { c_id = c; page_id = page_id } in
        do
          m' ← insert s₁.page_to_frame k victim
          let f = s₁.frames victim in
              some (
                set_frame victim
                    (record f { page = set_page_id f.page page_id; key = some k; is_dirty = true })
                    (record s₁ { page_to_frame = m' }),
                ok victim,
              )

  unfoldable pub create_new_page_for_write : ℕ → BufferPool D → OrPanic (BufferPool D × Reply ℕ)
  unfolding choose_victim write_back new_page_in
  create_new_page_for_write c s = do
    (s₁, choice) ← choose_victim s
    elim choice [
      | none ↦ some (s₁, err cannot_evict_page)
      | some victim ↦ (do
        (s₂, written) ← write_back io victim s₁
        elim written [
          | err e ↦ some (set_frame victim (drop_write (s₂.frames victim)) s₂, err e)
          | ok _ ↦ new_page_in c victim s₂
        ])
    ]
