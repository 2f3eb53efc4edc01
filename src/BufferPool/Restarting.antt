-- ===== src/BufferPool/Restarting.antt =====
-- `flush_all_and_reset` on a disk that works: its loop, and the pool at the end.
use crusty_db.Prelude.{
  ℕ, zero, suc, ◌+◌, ◌<◌, ◌≤◌, ◌==◌, ◌≡◌, ◌≢◌, refl, sym, ◌∙◌, inl, inr, Option, none, some,
  Bool-cases, arith, ==_iff, [], All,
}
use crusty_db.Bytes.{Array}
use crusty_db.BaseFile.{Disk, IsDisk}
use crusty_db.BufferPool.{ContainerPageId, BufferFrame, BufferPool, ok, indices_from, PageToFrame}
use crusty_db.BufferPool.Mapping.{get}
use crusty_db.BufferPool.Flush.{empty_frames, flush_all_and_reset, forget_pages}
use crusty_db.BufferPool.Invariant.{IsPool, Keeps, OnDisk, HeldBy}
use crusty_db.BufferPool.Writing.{Works}
use crusty_db.BufferPool.Resetting.{with_map, Emptied, empty_step}

module _ {D : Type 0} where
  -- A pool with no page in memory, whose frames are all hints.
  pub record IsEmpty (s : BufferPool D) : Type 0 where
    pub unmapped : s.page_to_frame ≡ []
    pub keys : (i : ℕ) → i < s.num_frames → (s.frames i).key ≡ none
    pub hints : s.eviction_hints ≡ indices_from 0 s.num_frames

module _ {D : Type 0} (io : Disk D) (law : IsDisk io) (works : Works io) where
  -- What the loop does, up to frame `i`.
  record EmptiedTo (i : ℕ) (s s' : BufferPool D) : Type 0 where
    wf : IsPool io s'
    keeps : Keeps io s s'
    containers : s'.containers ≡ s.containers
    num_frames : s'.num_frames ≡ s.num_frames
    keys : (j : ℕ) → j < i → (s'.frames j).key ≡ none
    latches : (j : ℕ) → j < s.num_frames → (s'.frames j).latch ≡ 0

  empty_from :
      (m : PageToFrame) (n i : ℕ) (s : BufferPool D)
      → IsPool io s
      → i + n ≤ s.num_frames
      → ((j : ℕ) → j < s.num_frames → (s.frames j).latch ≡ 0)
      → ((j : ℕ) → j < i → (s.frames j).key ≡ none)
      → (s' : BufferPool D) × (empty_frames io (indices_from i n) (with_map m s)
          ≡ some (with_map m s', ok tt))
        × EmptiedTo (i + n) s s'
  unfolding empty_frames
  empty_from m zero i s p b free empty = (
    s,
    refl,
    record {
      wf = p;
      keeps = λ k a r t h. h;
      containers = refl;
      num_frames = refl;
      keys = λ j h. empty j (omega (arith, h));
      latches = free;
    },
  )
  empty_from m (suc n) i s p b free empty =
      let here : i < s.num_frames = omega (arith, b) in
      let (s', e, d) =
        empty_step io law works s p i here (free i here) m (indices_from (i + 1) n) in
      let (s'', e', f) =
        empty_from m n (i + 1) s' d.wf (rw d.num_frames (omega (arith, b)))
          (λ j h. next_of i s s' d (λ g. g.latch ≡ 0) d.latch j (free j (rw (sym d.num_frames) h)))
          (λ j h. next_of_lt i s s' d j h (empty j)) in
      (
        s'',
        e ∙ e',
        record {
          wf = f.wf;
          keeps = λ k a (x, r, counts) (y, there, lasts) h.
              f.keeps k a (x, rw d.containers r, counts) (y, rw d.containers there, lasts)
                (d.keeps k a (x, r, counts) (y, there, lasts) h);
          containers = f.containers ∙ d.containers;
          num_frames = f.num_frames ∙ d.num_frames;
          keys = λ j h. f.keys j (omega (arith, h));
          latches = λ j h. f.latches j (rw d.num_frames h);
        },
      )
    where
      next_of :
          (i : ℕ) (s s' : BufferPool D)
          → Emptied io law works i s s'
          → (P : BufferFrame → Type 0) → P (s'.frames i)
          → (j : ℕ) → P (s.frames j)
          → P (s'.frames j)
      next_of i s s' d P at_i j h = elim (Bool-cases (j == i)) [
        | inl e ↦ rw ((==_iff j i).0 e) at_i
        | inr e ↦ rw (d.others j (λ same. cc (e, (==_iff j i).1 same))) h
      ]

      next_of_lt :
          (i : ℕ) (s s' : BufferPool D)
          → Emptied io law works i s s'
          → (j : ℕ) → j < i + 1
          → (j < i → (s.frames j).key ≡ none)
          → (s'.frames j).key ≡ none
      next_of_lt i s s' d j b h = elim (Bool-cases (j == i)) [
        | inl e ↦ rw ((==_iff j i).0 e) d.key
        | inr e ↦
            let ne : j ≢ i = λ same. cc (e, (==_iff j i).1 same) in
            rw (d.others j ne) (h (omega (arith, b, ne)))
      ]

  indices_below : (n i m : ℕ) → i + n ≤ m → All (λ j. j < m) (indices_from i n)
  indices_below zero i m b = tt
  indices_below (suc n) i m b = (omega (arith, b), indices_below n (i + 1) m (omega (arith, b)))

  no_key :
      (s : BufferPool D)
      → IsPool io s
      → ((i : ℕ) → i < s.num_frames → (s.frames i).key ≡ none)
      → (k : ContainerPageId) → get s.page_to_frame k ≡ none
  no_key s p empty k = go (get s.page_to_frame k) refl
    where
      go : (o : Option ℕ) → get s.page_to_frame k ≡ o → get s.page_to_frame k ≡ none
      go none e = e
      go (some i) e = let (b, key, r) = p.mapped k i e in absurd (cc (key, empty i b))

  forgotten-IsPool :
      (s : BufferPool D)
      → IsPool io s
      → ((i : ℕ) → i < s.num_frames → (s.frames i).key ≡ none)
      → IsPool io (forget_pages s)
  unfolding forget_pages get
  forgotten-IsPool s p empty = record {
    mapped = λ k i e. absurd cc;
    keyed = λ k i b e. absurd (cc (e, empty i b));
    sound = p.sound;
    hints = indices_below s.num_frames 0 s.num_frames (omega arith);
  }

  -- On a well-formed pool over a disk that works, with no frame latched: `flush_all_and_reset`
  -- returns `Ok` and leaves a well-formed pool with no page in memory and every frame among the
  -- hints, in which every registered page of a container that is not temporary has the content
  -- that it had.
  pub flush_all_and_reset-IsEmpty :
      (s : BufferPool D)
      → IsPool io s
      → ((i : ℕ) → i < s.num_frames → (s.frames i).latch ≡ 0)
      → (s' : BufferPool D) × (flush_all_and_reset io s ≡ some (s', ok tt))
        × IsPool io s'
        × IsEmpty s'
        × Keeps io s s'
  unfolding flush_all_and_reset forget_pages get
  flush_all_and_reset-IsEmpty s p free =
      let (t, e, f) =
        empty_from s.page_to_frame s.num_frames 0 s p (omega arith) free
          (λ j b. absurd (omega (arith, b))) in
      let keys : (i : ℕ) → i < t.num_frames → (t.frames i).key ≡ none =
        λ i b. f.keys i (omega (arith, b, f.num_frames)) in
      (
        forget_pages t,
        rw (flush_all_and_reset, e) refl,
        forgotten-IsPool t f.wf keys,
        record { unmapped = refl; keys = keys; hints = refl },
        λ k a r lasts h.
            shut t k a (get t.page_to_frame k) (no_key t f.wf keys k) (f.keeps k a r lasts h),
      )
    where
      shut :
          (t : BufferPool D) (k : ContainerPageId) (a : Array) (o : Option ℕ)
          → o ≡ none
          → HeldBy io t k a o
          → OnDisk io t.disk k a
      shut t k a none e h = h
      shut t k a (some i) e h = absurd cc
