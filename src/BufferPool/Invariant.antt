-- ===== src/BufferPool/Invariant.antt =====
-- The invariant of the pool, what a page of the database holds, and the changes to one frame
-- that keep both.
use crusty_db.Prelude.{ℕ, ◌+◌, ◌%◌, ◌^◌, ◌*◌, ◌<◌, ◌≡◌, false, Option, none, some, All}
use crusty_db.Bytes.{Array}
use crusty_db.BaseFile.{Disk, page_size, num_pages, Shows}
use crusty_db.Page.{get_page_id}
use crusty_db.BufferPool.{ContainerPageId, BufferFrame, BufferPool, Container}
use crusty_db.BufferPool.Mapping.{get}

module _ {D : Type 0} where
  -- The page's container is known, and counts the page.
  abbrev pub IsRegistered : BufferPool D → ContainerPageId → Type 0
  IsRegistered s k = (x : Container) × (s.containers k.c_id ≡ some x) × (k.page_id < x.page_count)

  abbrev pub IsPersistent : BufferPool D → ℕ → Type 0
  IsPersistent s c = (x : Container) × (s.containers c ≡ some x) × (x.is_temp ≡ false)

module _ {D : Type 0} (io : Disk D) where
  -- The file has the page, with its id.
  abbrev pub OnDisk : D → ContainerPageId → Array → Type 0
  OnDisk d k a =
      Shows io d k.c_id (k.page_id * page_size) a
      × (get_page_id a ≡ k.page_id)
      × (k.page_id < num_pages io d k.c_id % 2 ^ 32)

  -- A frame that may be reused: what it has is in the file.
  abbrev pub IsSaved : BufferPool D → BufferFrame → Type 0
  IsSaved s f =
      (k : ContainerPageId) → f.key ≡ some k → IsPersistent s k.c_id → OnDisk s.disk k f.page

  -- The page has the id of the frame's key, which is not the last one of 32 bits.
  abbrev pub IsNamed : BufferFrame → Type 0
  IsNamed f =
      (k : ContainerPageId)
      → f.key ≡ some k
      → (get_page_id f.page ≡ k.page_id) × (k.page_id + 1 < 2 ^ 32)

  -- An empty frame is clean, the page of a clean one is saved, and a page has its id.
  abbrev pub IsSound : BufferPool D → BufferFrame → Type 0
  IsSound s f = (f.key ≡ none → f.is_dirty ≡ false) × (f.is_dirty ≡ false → IsSaved s f) × IsNamed f

  pub record IsPool (s : BufferPool D) : Type 0 where
    pub mapped :
        (k : ContainerPageId) (i : ℕ)
        → get s.page_to_frame k ≡ some i
        → (i < s.num_frames) × ((s.frames i).key ≡ some k) × IsRegistered s k
    pub keyed :
        (k : ContainerPageId) (i : ℕ)
        → i < s.num_frames
        → (s.frames i).key ≡ some k
        → get s.page_to_frame k ≡ some i
    pub sound : (i : ℕ) → i < s.num_frames → IsSound s (s.frames i)
    pub hints : All (λ i. i < s.num_frames) s.eviction_hints

  abbrev pub HeldBy : BufferPool D → ContainerPageId → Array → Option ℕ → Type 0
  HeldBy s k a none = OnDisk s.disk k a
  HeldBy s k a (some i) = (s.frames i).page ≡ a

  -- The content of a page of the database: that of its frame, or else that of the file.
  abbrev pub Holds : BufferPool D → ContainerPageId → Array → Type 0
  Holds s k a = HeldBy s k a (get s.page_to_frame k)

  -- No registered page of a persistent container has another content after than before.
  abbrev pub Keeps : BufferPool D → BufferPool D → Type 0
  Keeps s s' =
      (k : ContainerPageId) (a : Array)
      → IsRegistered s k
      → IsPersistent s k.c_id
      → Holds s k a
      → Holds s' k a

  -- The pool is well-formed, no page has another content, and the containers are the same.
  pub record Kept (s s' : BufferPool D) : Type 0 where
    pub wf : IsPool s'
    pub keeps : Keeps s s'
    pub containers : s'.containers ≡ s.containers
    pub num_frames : s'.num_frames ≡ s.num_frames
