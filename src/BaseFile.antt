-- ===== src/BaseFile.antt =====
-- src/storage/heapstore/src/base_file.rs: the file of a container, in pages of 4096 bytes.
-- The operating system's `fstat`, `pread` and `pwrite` are parameters: operations on a state `D`
-- of the file system, in which a container's id stands for its open file.
use crusty_db.Prelude.{
  ℕ, ◌*◌, ◌/◌, ◌%◌, ◌^◌, ◌<◌, ◌≤◌, ◌==◌, ◌≡◌, ◌≢◌, ◌⊎◌, Bool, true, false, ltb, some, OrPanic, ◌>>◌,
  check, if◌then◌else◌,
}
use crusty_db.Bytes.{Array}
use crusty_db.Page.{get_page_id}

abbrev pub page_size : ℕ
page_size = 4096

-- `pread` is given the file, the offset and the buffer, and says whether all the bytes of a page
-- arrived; what is left in the buffer otherwise is unknown. `pwrite` is given the page and says
-- whether all of it was written.
pub record Disk (D : Type 0) : Type 0 where
  pub fstat : D → ℕ → ℕ
  pub pread : D → ℕ → ℕ → Array → Bool × Array
  pub pwrite : D → ℕ → ℕ → Array → Bool × D

module _ {D : Type 0} (io : Disk D) where
  unfoldable pub num_pages : D → ℕ → ℕ
  num_pages d c_id = io.fstat d c_id / page_size

  -- With the `debug_assert`s: the page is in the file, and it has the id that is asked for.
  unfoldable pub read_page : D → ℕ → ℕ → Array → OrPanic (Bool × Array)
  unfolding num_pages
  read_page d c_id page_id page = do
    check (ltb page_id (num_pages d c_id % 2 ^ 32))
    let (whole, page') = io.pread d c_id (page_id * page_size) page in
        if whole
        then (do check (get_page_id page' == page_id); some (true, page'))
        else some (false, page')

  unfoldable pub write_page : D → ℕ → ℕ → Array → OrPanic (Bool × D)
  write_page d c_id page_id page = do
    check (get_page_id page == page_id)
    some (io.pwrite d c_id (page_id * page_size) page)

  -- The page at an offset of a file reads as `a`, whatever the buffer held.
  abbrev pub Shows : D → ℕ → ℕ → Array → Type 0
  Shows d c off a = (b : Array) → io.pread d c off b ≡ (true, a)

  -- What the code relies on of the file system: a page written whole is read back; writing a
  -- page, also when it fails, leaves what else reads whole as it is. A file has less than 2^32
  -- pages, reaches behind a page that was written whole, and does not shrink by a write.
  pub record IsDisk : Type 0 where
    pub reads_back :
        (d : D) (c off : ℕ) (a : Array)
        → (io.pwrite d c off a).0 ≡ true
        → Shows (io.pwrite d c off a).1 c off a
    pub reads_other :
        (d : D) (c p : ℕ) (a : Array) (c' p' : ℕ) (a' : Array)
        → (c ≢ c') ⊎ (p ≢ p')
        → Shows d c' (p' * page_size) a'
        → Shows (io.pwrite d c (p * page_size) a).1 c' (p' * page_size) a'
    pub small : (d : D) (c : ℕ) → num_pages d c < 2 ^ 32
    pub reaches :
        (d : D) (c p : ℕ) (a : Array)
        → (io.pwrite d c (p * page_size) a).0 ≡ true
        → p < num_pages (io.pwrite d c (p * page_size) a).1 c
    pub stays :
        (d : D) (c p : ℕ) (a : Array) (c' : ℕ)
        → num_pages d c' ≤ num_pages (io.pwrite d c (p * page_size) a).1 c'
