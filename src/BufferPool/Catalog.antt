-- ===== src/BufferPool/Catalog.antt =====
-- container_file_catalog.rs: the containers and their page counts; opening the file of a
-- container (`BaseFile::new`) is taken to succeed.
use crusty_db.Prelude.{
  ℕ, ◌+◌, ◌%◌, Bool, false, Option, none, some, ltb, if◌then◌else◌, OrPanic, ◌>>=◌, ◌>>◌, check,
}
use crusty_db.Bytes.{Array}
use crusty_db.BaseFile.{Disk, num_pages, write_page}
use crusty_db.BufferPool.{Container, BufferPool, put_at, Reply, ok, err, base_file_error}

abbrev pub u32_mod : ℕ
u32_mod = 4294967296

module _ {D : Type 0} where
  unfoldable pub set_container : ℕ → Container → BufferPool D → BufferPool D
  set_container c x s = record s { containers = put_at s.containers c (some x) }

  -- `get_container_page_count`.
  unfoldable pub get_container_page_count : ℕ → BufferPool D → Option ℕ
  get_container_page_count c s = elim (s.containers c) [ none ↦ none | some x ↦ some x.page_count ]

module _ {D : Type 0} (io : Disk D) where
  -- `Container::new` and `new_temp`: the page count is that of the file, and must fit a u32.
  unfoldable pub new_container : D → ℕ → Bool → OrPanic Container
  new_container d c is_temp = do
    check (ltb (num_pages io d c) u32_mod)
    some (record { page_count = num_pages io d c; is_temp = is_temp })

  -- `register_container`, which leaves a container that is there as it is.
  unfoldable pub register_container : ℕ → Bool → BufferPool D → OrPanic (BufferPool D)
  unfolding new_container set_container
  register_container c is_temp s = elim (s.containers c) [
    | some x ↦ some s
    | none ↦ (do x ← new_container s.disk c is_temp; some (set_container c x s))
  ]

  -- `get_container`, which registers a container on its first use.
  unfoldable pub get_container : ℕ → BufferPool D → OrPanic (BufferPool D × Container)
  unfolding new_container set_container
  get_container c s = elim (s.containers c) [
    | some x ↦ some (s, x)
    | none ↦ (do x ← new_container s.disk c false; some (set_container c x s, x))
  ]

  -- `inc_page_count`, an atomic addition that wraps: the count before, and the pool after.
  unfoldable pub inc_page_count : ℕ → ℕ → BufferPool D → OrPanic (BufferPool D × ℕ)
  unfolding get_container set_container
  inc_page_count c count s = do
    (s', x) ← get_container c s
    some (
      set_container c (record x { page_count = (x.page_count + count % u32_mod) % u32_mod }) s',
      x.page_count,
    )

  -- `get_container(c).set_temp(is_temp)`.
  unfoldable pub set_temp : ℕ → Bool → BufferPool D → OrPanic (BufferPool D)
  unfolding get_container set_container
  set_temp c is_temp s = do
    (s', x) ← get_container c s
    some (set_container c (record x { is_temp = is_temp }) s')

  -- `Container::write_page`: a temporary container's pages are not written.
  unfoldable pub write_to :
      ℕ → ℕ → Container → Array → BufferPool D → OrPanic (BufferPool D × Reply (Unit {0}))
  unfolding write_page
  write_to c page_id x page s = if x.is_temp then some (s, ok tt) else (do
    (written, d) ← write_page io s.disk c page_id page
    some (record s { disk = d }, if written then ok tt else err base_file_error))
