-- ===== src/HeapFile/Stored.antt =====
-- The operations on the values of one page of a heap file, on a disk that works.
use crusty_db.Prelude.{ℕ, ◌≡◌, ◌≢◌, false, some, leb, leb-false}
use crusty_db.Bytes.{Array}
use crusty_db.HeapPage.Layout.{layout}
use crusty_db.HeapPage.Wf.{IsWf}
use crusty_db.BaseFile.{Disk, IsDisk}
use crusty_db.BufferPool.{BufferFrame, BufferPool}
use crusty_db.BufferPool.Catalog.{get_container_page_count}
use crusty_db.BufferPool.Pages.{get_page_for_write}
use crusty_db.BufferPool.Invariant.{IsPool, Kept, IsRegistered, IsPersistent, Holds}
use crusty_db.BufferPool.Writing.{Works}
use crusty_db.BufferPool.Granting.{Granted}
use crusty_db.BufferPool.Access.{get_page_for_write-Served}
use crusty_db.HeapFile.{key, num_pages, write_page}
use crusty_db.HeapFile.Guards.{IsAvailable, served}
use crusty_db.HeapFile.Edits.{Written}

module _ {D : Type 0} where
  -- The pool keeps everything, and no latch has changed.
  abbrev pub Unchanged : Disk D → BufferPool D → BufferPool D → Type 0
  Unchanged io s s' = Kept io s s' × ((j : ℕ) → (s'.frames j).latch ≡ (s.frames j).latch)

  pub page_exists :
      (s : BufferPool D) (c page_id : ℕ)
      → IsRegistered s (key c page_id)
      → leb (num_pages c s) page_id ≡ false
  unfolding num_pages get_container_page_count
  page_exists s c page_id (x, e, b) =
      rw (num_pages, get_container_page_count, e) (leb-false x.page_count page_id b)

module _ {D : Type 0} (io : Disk D) (law : IsDisk io) (works : Works io) (s : BufferPool D)
    (p : IsPool io s) (c page_id : ℕ) (a : Array) (known : IsRegistered s (key c page_id))
    (lasting : IsPersistent s c) (holds : Holds io s (key c page_id) a)
    (free : IsAvailable s (key c page_id)) (w : IsWf (layout a)) where
  -- The page, taken for writing.
  pub write_page-Granted :
      (s₁ : BufferPool D) × (i : ℕ) × (write_page io c page_id s ≡ some (s₁, i))
      × Kept io s s₁
      × Granted io Written s (key c page_id) a i s₁
  unfolding write_page
  write_page-Granted =
      served io s (key c page_id) a (get_page_for_write io (key c page_id) s)
        (λ (f : BufferFrame) (l : f.latch ≡ 0) (t : f.latch ≢ 0). t l) free
        (get_page_for_write-Served io law works s p (key c page_id) a known lasting holds)
