-- ===== src/BufferPool.antt =====
-- src/storage/heapstore/src/buffer_pool/buffer_pool.rs, buffer_frame.rs, mem_pool_trait.rs and
-- container_file_catalog.rs: the pool of page frames over the containers' files.
-- A method runs alone: its own critical sections and loops are written out, and the guards that
-- callers hold are the latches of the frames. `none` is a panic, or a loop that waits for a latch
-- which only another thread can give back.
pub mod Mapping
pub mod Catalog
pub mod Frames
pub mod Serving
pub mod Pages
pub mod Flush
pub mod Invariant
pub mod Framing
pub mod Placing
pub mod Writing
pub mod Victims
pub mod Faulting
pub mod Granting
pub mod Installing
pub mod Access
pub mod Creating
pub mod Created
pub mod Flushing
pub mod Evicting
pub mod Resetting
pub mod Restarting
pub mod Starting
use crusty_db.Prelude.{
  ℕ, zero, suc, ◌+◌, ◌&&◌, ◌==◌, Bool, true, false, List, [], ◌∷◌, Option, none, some,
  if◌then◌else◌,
}
use crusty_db.Bytes.{Array}
use crusty_db.Latch.{unlocked}
use crusty_db.Page.{new}

-- `ContainerPageId`, and its derived `PartialEq`.
pub record ContainerPageId : Type 0 where
  pub c_id : ℕ
  pub page_id : ℕ

unfoldable pub same_key : ContainerPageId → ContainerPageId → Bool
same_key a b = (a.c_id == b.c_id) && (a.page_id == b.page_id)

pub data MemPoolStatus : Type 0 where
  base_file_not_found base_file_error page_not_found frame_read_latch_grant_failed : MemPoolStatus
  frame_write_latch_grant_failed cannot_evict_page : MemPoolStatus

-- `Result<A, MemPoolStatus>`.
pub data Reply (A : Type 0) : Type 0 where
  ok : A → Reply A
  err : MemPoolStatus → Reply A

-- `BufferFrame`, less its index, which is its place in the pool, and the eviction policy's data.
pub record BufferFrame : Type 0 where
  pub latch : ℕ
  pub is_dirty : Bool
  pub key : Option ContainerPageId
  pub page : Array

unfoldable pub new_frame : BufferFrame
new_frame = record { latch = unlocked; is_dirty = false; key = none; page = new 0 }

pub record Container : Type 0 where
  pub page_count : ℕ
  pub is_temp : Bool

-- `PageToFrame`: the two levels of its hash maps as one list of entries.
abbrev pub PageToFrame : Type 0
PageToFrame = List (ContainerPageId × ℕ)

-- `BufferPool`, with the containers of its catalog and the state of their files. `frames` is read
-- below `num_frames` only.
pub record BufferPool (D : Type 0) : Type 0 where
  pub containers : ℕ → Option Container
  pub disk : D
  pub eviction_hints : List ℕ
  pub num_frames : ℕ
  pub frames : ℕ → BufferFrame
  pub page_to_frame : PageToFrame

-- `0..n`.
abbrev pub indices_from : ℕ → ℕ → List ℕ
indices_from i zero = []
indices_from i (suc n) = i ∷ indices_from (i + 1) n

-- A function changed at one number.
abbrev pub put_at {ℓ} : {A : Type ℓ} → (ℕ → A) → ℕ → A → ℕ → A
put_at f i a j = if j == i then a else f j

module _ {D : Type 0} where
  -- `BufferPool::new`, over a catalog.
  unfoldable pub new_pool : ℕ → (ℕ → Option Container) → D → BufferPool D
  unfolding new_frame
  new_pool num_frames containers d = record {
    containers = containers;
    disk = d;
    eviction_hints = indices_from 0 num_frames;
    num_frames = num_frames;
    frames = λ i. new_frame;
    page_to_frame = [];
  }

  unfoldable pub set_frame : ℕ → BufferFrame → BufferPool D → BufferPool D
  set_frame i f s = record s { frames = put_at s.frames i f }
