-- ===== src/BufferPool/Flush.antt =====
-- buffer_pool.rs: the methods that go over all frames. The files are opened for direct I/O, so
-- that flushing them does nothing.
use crusty_db.Prelude.{ℕ, false, List, [], ◌∷◌, some, OrPanic, ◌>>=◌}
use crusty_db.BaseFile.{Disk}
use crusty_db.BufferPool.{BufferPool, set_frame, Reply, ok, err, indices_from}
use crusty_db.BufferPool.Frames.{try_read, try_write, drop_read, drop_write, clear}
use crusty_db.BufferPool.Serving.{write_back}

module _ {D : Type 0} where
  -- The end of `reset` and of `flush_all_and_reset`.
  unfoldable pub forget_pages : BufferPool D → BufferPool D
  forget_pages s = record s { page_to_frame = []; eviction_hints = indices_from 0 s.num_frames }

  -- The loop of `reset`.
  unfoldable pub clear_frames : List ℕ → BufferPool D → OrPanic (BufferPool D)
  unfolding set_frame
  clear_frames [] s = some s
  clear_frames (i ∷ is) s = do
    f ← try_write false (s.frames i)
    clear_frames is (set_frame i (drop_write (clear f)) s)

  unfoldable pub reset : BufferPool D → OrPanic (BufferPool D)
  unfolding clear_frames forget_pages
  reset s = do s' ← clear_frames (indices_from 0 s.num_frames) s; some (forget_pages s')

  -- The loop of `clear_dirty_flags`.
  unfoldable pub clean_frames : List ℕ → BufferPool D → OrPanic (BufferPool D)
  unfolding set_frame
  clean_frames [] s = some s
  clean_frames (i ∷ is) s = do
    f ← try_write false (s.frames i)
    clean_frames is (set_frame i (drop_write (record f { is_dirty = false })) s)

  unfoldable pub clear_dirty_flags : BufferPool D → OrPanic (BufferPool D)
  unfolding clean_frames
  clear_dirty_flags s = clean_frames (indices_from 0 s.num_frames) s

module _ {D : Type 0} (io : Disk D) where
  -- The loop of `flush_all`.
  unfoldable pub flush_frames : List ℕ → BufferPool D → OrPanic (BufferPool D × Reply (Unit {0}))
  unfolding set_frame write_back
  flush_frames [] s = some (s, ok tt)
  flush_frames (i ∷ is) s = do
    f ← try_read (s.frames i)
    (s', written) ← write_back io i (set_frame i f s)
    let s'' = set_frame i (drop_read (s'.frames i)) s' in
        elim written [ err e ↦ some (s'', err e) | ok _ ↦ flush_frames is s'' ]

  unfoldable pub flush_all : BufferPool D → OrPanic (BufferPool D × Reply (Unit {0}))
  unfolding flush_frames
  flush_all s = flush_frames (indices_from 0 s.num_frames) s

  -- The loop of `flush_all_and_reset`.
  unfoldable pub empty_frames : List ℕ → BufferPool D → OrPanic (BufferPool D × Reply (Unit {0}))
  unfolding set_frame write_back
  empty_frames [] s = some (s, ok tt)
  empty_frames (i ∷ is) s = do
    f ← try_write false (s.frames i)
    (s', written) ← write_back io i (set_frame i f s)
    elim written [
      | err e ↦ some (set_frame i (drop_write (s'.frames i)) s', err e)
      | ok _ ↦ empty_frames is (set_frame i (drop_write (clear (s'.frames i))) s')
    ]

  unfoldable pub flush_all_and_reset : BufferPool D → OrPanic (BufferPool D × Reply (Unit {0}))
  unfolding empty_frames forget_pages
  flush_all_and_reset s = do
    (s', written) ← empty_frames (indices_from 0 s.num_frames) s
    elim written [ err e ↦ some (s', err e) | ok _ ↦ some (forget_pages s', ok tt) ]
