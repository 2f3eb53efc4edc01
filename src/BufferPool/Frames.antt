-- ===== src/BufferPool/Frames.antt =====
-- buffer_frame.rs: a frame, and the guards that its latch gives.
use crusty_db.Prelude.{Bool, false, ◌||◌, Option, none, some, OrPanic}
use crusty_db.Latch.{
  try_shared, try_exclusive, downgrade, release_shared, release_exclusive, swap, Verdict,
}
use crusty_db.BufferPool.{BufferFrame}

-- What the verdict of a latch's method makes of the frame: `none` when it has not got the latch.
unfoldable pub latched : Verdict → BufferFrame → Option BufferFrame
latched (swap c) f = some (record f { latch = c })
latched _ f = none

-- `try_read` and `try_write`: the frame with its latch taken.
unfoldable pub try_read : BufferFrame → Option BufferFrame
unfolding latched
try_read f = latched (try_shared f.latch) f

unfoldable pub make : Bool → BufferFrame → BufferFrame
make make_dirty f = record f { is_dirty = make_dirty || f.is_dirty }

unfoldable pub try_write : Bool → BufferFrame → Option BufferFrame
unfolding latched make
try_write make_dirty f = latched (try_exclusive f.latch) (make make_dirty f)

-- `FrameWriteGuard::downgrade`, which the holder of the guard calls.
unfoldable pub downgrade_guard : BufferFrame → OrPanic BufferFrame
unfolding latched
downgrade_guard f = latched (downgrade f.latch) f

-- The guards' `drop`.
unfoldable pub drop_read : BufferFrame → BufferFrame
drop_read f = record f { latch = release_shared f.latch }

unfoldable pub drop_write : BufferFrame → BufferFrame
drop_write f = record f { latch = release_exclusive f.latch }

-- `FrameWriteGuard::clear`.
unfoldable pub clear : BufferFrame → BufferFrame
clear f = record f { is_dirty = false; key = none }
