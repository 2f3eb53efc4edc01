-- ===== src/Tests/Pools.antt =====
-- The buffer pool and heap files on concrete pools.
use crusty_db.Prelude.{ℕ, ◌+◌, ◌%◌, ◌≡◌, ◌≢◌, refl, true, false, [], ◌∷◌, some, arith}
use crusty_db.Bytes.{Array}
use crusty_db.Latch.{minus_one, i16_mod, is_negative}
use crusty_db.BufferPool.{
  ContainerPageId, BufferPool, new_pool, set_frame, ok, Reply, frame_write_latch_grant_failed,
  frame_read_latch_grant_failed, same_key,
}
use crusty_db.BufferPool.Mapping.{get}
use crusty_db.BufferPool.Pages.{get_page_for_read, get_page_for_write, create_new_page_for_write}
use crusty_db.BufferPool.Flush.{flush_all, flush_all_and_reset}
use crusty_db.BufferPool.Invariant.{IsPool, IsRegistered, IsPersistent, Holds, OnDisk, Keeps}
use crusty_db.BufferPool.Granting.{Served}
use crusty_db.BufferPool.Access.{get_page_for_write-Served, get_page_for_read-Served}
use crusty_db.BufferPool.Created.{Creates, create_new_page_for_write-Creates}
use crusty_db.BufferPool.Flushing.{flush_all-OnDisk}
use crusty_db.BufferPool.Restarting.{IsEmpty, flush_all_and_reset-IsEmpty}
use crusty_db.BufferPool.Starting.{new_pool-IsPool}
use crusty_db.HeapFile.{add_to_some}
use crusty_db.HeapFile.Scanning.{IsReady, Scanned, add_to_some-Scanned}
use crusty_db.Tests.Pages.{one_value, one_value-IsWf, three_bytes}
use crusty_db.Tests.Disks.{
  memory, memory-IsDisk, memory-Works, fresh_pool, fresh_pool-IsPool, fresh_pool-Holds,
  fresh-IsRegistered, fresh-IsPersistent, second, table, dirty_pool, dirty_pool-IsPool,
  dirty_pool-Holds, dirty-IsRegistered, dirty-IsPersistent, dirty_latches, catalog,
}

-- The page is read from its file.
get_page_for_write_example :
    Served memory
      (λ f g. (f.latch ≡ 0) × (g.latch ≡ minus_one) × (g.is_dirty ≡ true))
      (λ f. f.latch ≢ 0)
      frame_write_latch_grant_failed
      fresh_pool
      second
      one_value
      (get_page_for_write memory second fresh_pool)
get_page_for_write_example =
    get_page_for_write-Served memory memory-IsDisk memory-Works fresh_pool fresh_pool-IsPool second
      one_value fresh-IsRegistered fresh-IsPersistent fresh_pool-Holds

-- The page is in memory.
get_page_for_read_example :
    Served memory
      (λ f g. (is_negative f.latch ≡ false) × (g.latch ≡ (f.latch + 1) % i16_mod))
      (λ f. is_negative f.latch ≡ true)
      frame_read_latch_grant_failed
      dirty_pool
      second
      one_value
      (get_page_for_read memory second dirty_pool)
get_page_for_read_example =
    get_page_for_read-Served memory memory-IsDisk memory-Works dirty_pool dirty_pool-IsPool second
      one_value dirty-IsRegistered dirty-IsPersistent dirty_pool-Holds

dirty-there : dirty_pool.containers 1 ≡ some table
unfolding new_pool set_frame
dirty-there = refl

create_new_page_example :
    (s' : BufferPool _) × (r : Reply ℕ) × (create_new_page_for_write memory 1 dirty_pool
      ≡ some (s', r))
    × IsPool memory s'
    × Keeps memory dirty_pool s'
    × Creates dirty_pool 1 table r s'
create_new_page_example =
    create_new_page_for_write-Creates memory memory-IsDisk memory-Works dirty_pool dirty_pool-IsPool
      1 table dirty-there (omega arith)

flush_all_example :
    (s' : BufferPool _) × (flush_all memory dirty_pool ≡ some (s', ok tt))
    × IsPool memory s'
    × Keeps memory dirty_pool s'
    × ((k : ContainerPageId) (a : Array)
        → IsRegistered dirty_pool k
        → IsPersistent dirty_pool k.c_id
        → Holds memory dirty_pool k a
        → OnDisk memory s'.disk k a)
flush_all_example =
    flush_all-OnDisk memory memory-IsDisk memory-Works dirty_pool dirty_pool-IsPool
      (λ j b. omega (arith, dirty_latches j b))

flush_all_and_reset_example :
    (s' : BufferPool _) × (flush_all_and_reset memory dirty_pool ≡ some (s', ok tt))
    × IsPool memory s'
    × IsEmpty s'
    × Keeps memory dirty_pool s'
flush_all_and_reset_example =
    flush_all_and_reset-IsEmpty memory memory-IsDisk memory-Works dirty_pool dirty_pool-IsPool
      dirty_latches

new_pool_example : IsPool memory (new_pool 2 catalog [])
new_pool_example = new_pool-IsPool memory 2 catalog []

second-IsReady : IsReady memory 1 dirty_pool (1, one_value)
unfolding new_pool set_frame get same_key
second-IsReady = record {
  known = dirty-IsRegistered;
  holds = dirty_pool-Holds;
  wf = one_value-IsWf;
  frame = (0, refl, refl);
}

add_to_some_example :
    Scanned memory 1 dirty_pool three_bytes
      ((1, one_value) ∷ [])
      (add_to_some memory 1 three_bytes (1 ∷ []) dirty_pool)
add_to_some_example =
    add_to_some-Scanned memory memory-IsDisk memory-Works 1 three_bytes (omega arith)
      ((1, one_value) ∷ []) dirty_pool dirty_pool-IsPool dirty-IsPersistent (second-IsReady, tt)
