-- ===== src/HeapFile/Guards.antt =====
-- A page of the pool that is taken, perhaps written, and given back.
use crusty_db.Prelude.{
  ℕ, ◌+◌, ◌%◌, ◌==◌, ◌≡◌, ◌≢◌, refl, sym, ◌∙◌, ap, ◌⊎◌, inl, inr, true, false, none, some, OrPanic,
  ◌>>=◌, All, arith, ==_iff, Bool-cases, leb-false,
}
use crusty_db.Bytes.{Array}
use crusty_db.Latch.{i16_mod, is_negative, release_shared}
use crusty_db.BaseFile.{Disk, IsDisk}
use crusty_db.BufferPool.{
  ContainerPageId, BufferFrame, BufferPool, set_frame, Reply, ok, err, MemPoolStatus,
}
use crusty_db.BufferPool.Mapping.{get}
use crusty_db.BufferPool.Frames.{drop_read}
use crusty_db.BufferPool.Pages.{get_page_for_read}
use crusty_db.BufferPool.Invariant.{IsPool, Kept, IsRegistered, IsPersistent, Holds}
use crusty_db.BufferPool.Framing.{put_at_self, put_at_other, set_frame-IsPool, set_frame-Keeps}
use crusty_db.BufferPool.Writing.{Works}
use crusty_db.BufferPool.Granting.{Granted, Served}
use crusty_db.BufferPool.Access.{get_page_for_read-Served}
use crusty_db.HeapFile.{give_back_read, unwrap}

module _ {D : Type 0} where
  -- The page's frame is not latched; or the page is in no frame, and some frame among the hints
  -- is not latched.
  abbrev pub IsAvailable : BufferPool D → ContainerPageId → Type 0
  IsAvailable s k =
      ((i : ℕ) × (get s.page_to_frame k ≡ some i) × ((s.frames i).latch ≡ 0))
      ⊎ ((get s.page_to_frame k ≡ none) × ¬ All (λ i. (s.frames i).latch ≢ 0) s.eviction_hints)

module _ {D : Type 0} (io : Disk D) where
  -- The pool `t`: page `k` has content `q` now, nothing else has changed, and no latch has.
  pub record Edited (s : BufferPool D) (k : ContainerPageId) (q : Array) (t : BufferPool D)
      : Type 0 where
    pub wf : IsPool io t
    pub self : Holds io t k q
    pub others :
        (k' : ContainerPageId) (a' : Array)
        → k ≢ k'
        → IsRegistered s k'
        → IsPersistent s k'.c_id
        → Holds io s k' a'
        → Holds io t k' a'
    pub latches : (j : ℕ) → (t.frames j).latch ≡ (s.frames j).latch
    pub containers : t.containers ≡ s.containers
    pub num_frames : t.num_frames ≡ s.num_frames
    pub mapping : (j : ℕ) → get s.page_to_frame k ≡ some j → t.page_to_frame ≡ s.page_to_frame

  pub Keeps_over :
      (s s₁ t : BufferPool D)
      → Kept io s s₁
      → ((k : ContainerPageId) (a : Array)
          → IsRegistered s₁ k
          → IsPersistent s₁ k.c_id
          → Holds io s₁ k a
          → Holds io t k a)
      → (k : ContainerPageId) (a : Array) → IsRegistered s k
      → IsPersistent s k.c_id
      → Holds io s k a
      → Holds io t k a
  Keeps_over s s₁ t kept f k a (x, r, counts) (y, there, lasts) h =
      f k a (x, rw kept.containers r, counts) (y, rw kept.containers there, lasts)
        (kept.keeps k a (x, r, counts) (y, there, lasts) h)

  -- A call that has been served has not been refused, if the page is available.
  pub served :
      {Held : BufferFrame → BufferFrame → Type 0} {Taken : BufferFrame → Type 0}
      {status : MemPoolStatus} (s : BufferPool D) (k : ContainerPageId) (a : Array)
      (result : OrPanic (BufferPool D × Reply ℕ))
      → ((f : BufferFrame) → f.latch ≡ 0 → ¬ Taken f)
      → IsAvailable s k
      → Served io Held Taken status s k a result
      → (s' : BufferPool D) × (i : ℕ) × (result >>= unwrap ≡ some (s', i))
        × Kept io s s'
        × Granted io Held s k a i s'
  served s k a result untaken free (s', ok i, e, kept, g) = (s', i, rw e refl, kept, g)
  served s k a result untaken (inl (i, e, free)) (s', err x, h, kept, (inl (same, (j, e', t)), l)) =
      let here : j ≡ i = ground (arith, e, e') in
      absurd (untaken (s.frames i) free (rw (sym here) t))
  served s k a result untaken (inl (i, e, free)) (s', err x, h, kept, (inr (same, e', t), l)) =
      absurd cc
  served s k a result untaken (inr (e, some_free))
        (s', err x, h, kept, (inl (same, (j, e', t)), l)) =
      absurd cc
  served s k a result untaken (inr (e, some_free)) (s', err x, h, kept, (inr (same, e', t), l)) =
      absurd (some_free t)

module _ {D : Type 0} (io : Disk D) (law : IsDisk io) (works : Works io) (s : BufferPool D)
    (p : IsPool io s) (k : ContainerPageId) (a : Array) (known : IsRegistered s k)
    (lasting : IsPersistent s k.c_id) (holds : Holds io s k a) (free : IsAvailable s k) where
  restores :
      (f g : BufferFrame)
      → is_negative f.latch ≡ false
      → g.latch ≡ (f.latch + 1) % i16_mod
      → (drop_read g).latch ≡ f.latch
  unfolding drop_read release_shared
  restores f g low e = ground (arith, low, e)

  -- A page read and given back: nothing changes.
  pub reading :
      (s₁ : BufferPool D) × (i : ℕ) × (get_page_for_read io k s >>= unwrap ≡ some (s₁, i))
      × ((s₁.frames i).page ≡ a)
      × Kept io s (give_back_read i s₁)
      × ((j : ℕ) → ((give_back_read i s₁).frames j).latch ≡ (s.frames j).latch)
  unfolding give_back_read set_frame drop_read release_shared
  reading =
      let (s₁, i, e, kept, g) =
        served io s k a (get_page_for_read io k s)
          (λ (f : BufferFrame) (l : f.latch ≡ 0) (t : is_negative f.latch ≡ true).
            cc (t, leb-false 32768 f.latch (omega (arith, l))))
          free (get_page_for_read-Served io law works s p k a known lasting holds) in
      let f = drop_read (s₁.frames i) in
      (
        s₁,
        i,
        e,
        g.page,
        record {
          wf = set_frame-IsPool io s₁ kept.wf i f refl (kept.wf.sound i g.bound);
          keeps =
              Keeps_over io s s₁ (give_back_read i s₁) kept
                (set_frame-Keeps io s₁ kept.wf i f refl refl);
          containers = kept.containers;
          num_frames = kept.num_frames;
        },
        λ j. elim (Bool-cases (j == i)) [
          | inl q ↦ rw ((==_iff j i).0 q) (
              ap (λ (h : BufferFrame). h.latch) (put_at_self s₁.frames i f)
              ∙ restores (s.frames i) (s₁.frames i) g.held.0 g.held.1)
          | inr q ↦
              let ne : j ≢ i = λ same. cc (q, (==_iff j i).1 same) in
              ap (λ (h : BufferFrame). h.latch) (put_at_other s₁.frames i j f ne) ∙ g.others j ne
        ],
      )
