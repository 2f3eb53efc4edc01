-- ===== src/BufferPool/Flushing.antt =====
-- `flush_all` on a disk that works.
use crusty_db.Prelude.{
  ℕ, zero, suc, ◌+◌, ◌<◌, ◌≤◌, ◌==◌, ◌≡◌, ◌≢◌, refl, sym, ◌∙◌, ap, inl, inr, false, List, Option,
  none, some, Bool-cases, arith, ==_iff, ◌∷◌, leb-false,
}
use crusty_db.Bytes.{Array}
use crusty_db.Latch.{release_shared}
use crusty_db.BaseFile.{Disk, IsDisk}
use crusty_db.BufferPool.{ContainerPageId, BufferFrame, BufferPool, set_frame, ok, indices_from}
use crusty_db.BufferPool.Mapping.{get}
use crusty_db.BufferPool.Frames.{try_read, drop_read}
use crusty_db.BufferPool.Flush.{flush_frames, flush_all}
use crusty_db.BufferPool.Invariant.{
  IsPool, Keeps, IsRegistered, IsPersistent, Holds, OnDisk, HeldBy,
}
use crusty_db.BufferPool.Framing.{put_at_self, put_at_other, set_frame-IsPool, set_frame-Keeps}
use crusty_db.BufferPool.Writing.{Works, Cleaned, write_back-Cleaned}
use crusty_db.BufferPool.Victims.{try_read_cases}

module _ {D : Type 0} (io : Disk D) (law : IsDisk io) (works : Works io) where
  -- A frame that is latched for reading, written back and released.
  module _ (s : BufferPool D) (p : IsPool io s) (i : ℕ) (b : i < s.num_frames)
      (free : (s.frames i).latch < 32767) where
    abbrev pub reading : BufferFrame
    reading = record (s.frames i) { latch = (s.frames i).latch + 1 }

    can_read : try_read (s.frames i) ≡ some reading
    can_read = elim (try_read_cases (s.frames i)) [
      | inl (taken, e) ↦
          absurd (cc (taken, leb-false 32768 (s.frames i).latch (omega (arith, free))))
      | inr (open_latch, e) ↦
          e ∙ ap (λ n. some (record (s.frames i) { latch = n })) (omega (arith, free))
    ]

    reading-IsPool : IsPool io (set_frame i reading s)
    reading-IsPool = set_frame-IsPool io s p i reading refl (p.sound i b)

    -- The guard is dropped, and the latch is what it was.
    released : (s₂ : BufferPool D) → Cleaned io i (set_frame i reading s) s₂ → BufferPool D
    released s₂ d = set_frame i (drop_read (s₂.frames i)) s₂

    released-Cleaned :
        (s₂ : BufferPool D) (d : Cleaned io i (set_frame i reading s) s₂)
        → Cleaned io i s (released s₂ d)
    unfolding released set_frame drop_read release_shared
    released-Cleaned s₂ d =
        let g = drop_read (s₂.frames i) in
        let e = put_at_self s₂.frames i g in
        let e₁ = put_at_self s.frames i reading in
        record {
          wf = set_frame-IsPool io s₂ d.wf i g refl (d.wf.sound i (rw d.num_frames b));
          keeps = λ k a (x, r, counts) (y, there, lasts) h.
              set_frame-Keeps io s₂ d.wf i g refl refl k a (x, rw d.containers r, counts)
                (y, rw d.containers there, lasts)
                (d.keeps k a (x, r, counts) (y, there, lasts)
                  (set_frame-Keeps io s p i reading refl refl k a (x, r, counts) (y, there, lasts)
                    h));
          containers = d.containers;
          num_frames = d.num_frames;
          page_to_frame = d.page_to_frame;
          eviction_hints = d.eviction_hints;
          is_clean = ap (λ (f : BufferFrame). f.is_dirty) e ∙ d.is_clean;
          latch =
              let l : (s₂.frames i).latch ≡ (s.frames i).latch + 1 =
                d.latch ∙ ap (λ (f : BufferFrame). f.latch) e₁ in
              ap (λ (f : BufferFrame). f.latch) e ∙ omega (arith, l, free);
          key = ap (λ (f : BufferFrame). f.key) e ∙ d.key ∙ ap (λ (f : BufferFrame). f.key) e₁;
          page = ap (λ (f : BufferFrame). f.page) e ∙ d.page ∙ ap (λ (f : BufferFrame). f.page) e₁;
          others = λ j ne.
              put_at_other s₂.frames i j g ne
              ∙ d.others j ne
              ∙ put_at_other s.frames i j reading ne;
        }

    flush_step :
        (is : List ℕ)
        → (s' : BufferPool D) × (flush_frames io (i ∷ is) s ≡ flush_frames io is s')
          × Cleaned io i s s'
    unfolding flush_frames released
    flush_step is =
        let (s₂, w, d) =
          write_back-Cleaned io law works (set_frame i reading s) reading-IsPool i b in
        (released s₂ d, rw (flush_frames, can_read, w) refl, released-Cleaned s₂ d)

  -- No latch is held for writing, or by more than 32766 readers.
  abbrev pub AllReadable : BufferPool D → Type 0
  AllReadable s = (j : ℕ) → j < s.num_frames → (s.frames j).latch < 32767

  AllClean : ℕ → BufferPool D → Type 0
  AllClean i s = (j : ℕ) → j < i → (s.frames j).is_dirty ≡ false

  -- What the loop does, from frame `i` on.
  record Flushed (i : ℕ) (s s' : BufferPool D) : Type 0 where
    wf : IsPool io s'
    keeps : Keeps io s s'
    containers : s'.containers ≡ s.containers
    num_frames : s'.num_frames ≡ s.num_frames
    clean : AllClean i s'

  clean_next :
      (i : ℕ) (s s' : BufferPool D) → Cleaned io i s s' → AllClean i s → AllClean (i + 1) s'
  unfolding AllClean
  clean_next i s s' d clean j b = elim (Bool-cases (j == i)) [
    | inl e ↦ rw ((==_iff j i).0 e) d.is_clean
    | inr e ↦
        let ne : j ≢ i = λ h. cc (e, (==_iff j i).1 h) in
        rw (d.others j ne) (clean j (omega (arith, b, ne)))
  ]

  readable_next : (i : ℕ) (s s' : BufferPool D) → Cleaned io i s s' → AllReadable s → AllReadable s'
  readable_next i s s' d readable j b = elim (Bool-cases (j == i)) [
    | inl e ↦
        rw ((==_iff j i).0 e, d.latch)
          (readable i (rw (sym ((==_iff j i).0 e), sym d.num_frames) b))
    | inr e ↦ rw (d.others j (λ h. cc (e, (==_iff j i).1 h))) (readable j (rw (sym d.num_frames) b))
  ]

  flush_from :
      (n i : ℕ) (s : BufferPool D)
      → IsPool io s
      → i + n ≤ s.num_frames
      → AllReadable s
      → AllClean i s
      → (s' : BufferPool D) × (flush_frames io (indices_from i n) s ≡ some (s', ok tt))
        × Flushed (i + n) s s'
  unfolding flush_frames AllClean
  flush_from zero i s p b readable clean = (
    s,
    refl,
    record {
      wf = p;
      keeps = λ k a r t h. h;
      containers = refl;
      num_frames = refl;
      clean = λ j h. clean j (omega (arith, h));
    },
  )
  flush_from (suc n) i s p b readable clean =
      let here : i < s.num_frames = omega (arith, b) in
      let (s', e, d) = flush_step s p i here (readable i here) (indices_from (i + 1) n) in
      let (s'', e', f) =
        flush_from n (i + 1) s' d.wf (rw d.num_frames (omega (arith, b)))
          (readable_next i s s' d readable) (clean_next i s s' d clean) in
      (
        s'',
        e ∙ e',
        record {
          wf = f.wf;
          keeps = λ k a (x, r, counts) (y, there, lasts) h.
              f.keeps k a (x, rw d.containers r, counts) (y, rw d.containers there, lasts)
                (d.keeps k a (x, r, counts) (y, there, lasts) h);
          containers = f.containers ∙ d.containers;
          num_frames = f.num_frames ∙ d.num_frames;
          clean = λ j h. f.clean j (omega (arith, h));
        },
      )

  -- On a well-formed pool over a disk that works, whose frames are not latched for writing:
  -- `flush_all` returns `Ok`, leaves the pool well-formed and the content of every registered page
  -- of a container that is not temporary as it was, and that content is then in the files.
  pub flush_all-OnDisk :
      (s : BufferPool D)
      → IsPool io s
      → AllReadable s
      → (s' : BufferPool D) × (flush_all io s ≡ some (s', ok tt))
        × IsPool io s'
        × Keeps io s s'
        × ((k : ContainerPageId) (a : Array)
            → IsRegistered s k
            → IsPersistent s k.c_id
            → Holds io s k a
            → OnDisk io s'.disk k a)
  unfolding flush_all AllClean
  flush_all-OnDisk s p readable =
      let (s', e, f) =
        flush_from s.num_frames 0 s p (omega arith) readable (λ j h. absurd (omega (arith, h))) in
      (
        s',
        e,
        f.wf,
        f.keeps,
        λ k a r (y, there, lasts) h.
            saved s' f.wf (λ j b. f.clean j (omega (arith, b, f.num_frames))) k a
              (y, rw f.containers there, lasts) (get s'.page_to_frame k) refl
              (f.keeps k a r (y, there, lasts) h),
      )
    where
      saved :
          (s' : BufferPool D)
          → IsPool io s'
          → ((j : ℕ) → j < s'.num_frames → (s'.frames j).is_dirty ≡ false)
          → (k : ContainerPageId) (a : Array) → IsPersistent s' k.c_id
          → (o : Option ℕ) → get s'.page_to_frame k ≡ o
          → HeldBy io s' k a o
          → OnDisk io s'.disk k a
      saved s' p clean k a t none e h = h
      saved s' p clean k a t (some j) e h =
          let (b, key, r) = p.mapped k j e in rw (sym h) ((p.sound j b).1 (clean j b) k key t)
