-- ===== src/BufferPool/Faulting.antt =====
-- A page that is not in memory: a victim is made ready, and gets the page of the file.
use crusty_db.Prelude.{
  ℕ, ◌%◌, ◌^◌, ◌<◌, ◌==◌, ltb, true, arith, ◌≡◌, ◌≢◌, refl, ◌∙◌, ap, ◌⊎◌, inl, inr, false, ◌∷◌,
  Option, none, some, All, OrPanic, ◌>>=◌, Bool-cases,
}
use crusty_db.Bytes.{Array}
use crusty_db.Latch.{minus_one}
use crusty_db.BaseFile.{Disk, IsDisk, read_page, num_pages}
use crusty_db.Page.{get_page_id}
use crusty_db.BufferPool.{
  ContainerPageId, BufferFrame, BufferPool, Container, set_frame, Reply, ok, same_key, PageToFrame,
}
use crusty_db.BufferPool.Mapping.{get, insert, remove, get-erase_self, get-erase_ne, same_key_iff}
use crusty_db.BufferPool.Catalog.{get_container}
use crusty_db.BufferPool.Serving.{choose_victim, write_back, unmap, remap, load, fault}
use crusty_db.BufferPool.Invariant.{IsPool, IsRegistered, OnDisk}
use crusty_db.BufferPool.Framing.{without}
use crusty_db.BufferPool.Placing.{given}
use crusty_db.BufferPool.Writing.{Works, write_back-Cleaned}
use crusty_db.BufferPool.Victims.{Retains, pop_hints-Choice}

module _ {D : Type 0} where
  -- The pool once the page's mapping has taken the place of the victim's.
  abbrev pub remapped : ContainerPageId → ℕ → BufferPool D → BufferPool D
  remapped k v s = record s { page_to_frame = (k, v) ∷ without (s.frames v).key s.page_to_frame }

  -- The victim's frame with the page.
  abbrev pub loaded : BufferPool D → ContainerPageId → ℕ → Array → BufferFrame
  loaded s k v a = record (s.frames v) { key = some k; page = a }

module _ {D : Type 0} (io : Disk D) where
  -- From `s`, the frame `v` has been taken and written back, which ends in `s'`.
  pub record Ready (s : BufferPool D) (v : ℕ) (s' : BufferPool D) : Type 0 where
    pub retains : Retains io s s'
    pub bound : v < s'.num_frames
    pub was_free : (s.frames v).latch ≡ 0
    pub latch : (s'.frames v).latch ≡ minus_one
    pub is_clean : (s'.frames v).is_dirty ≡ false
    pub others : (j : ℕ) → j ≢ v → (s'.frames j).latch ≡ (s.frames j).latch

  abbrev pub Prepared : BufferPool D → Type 0
  Prepared s =
      ((s' : BufferPool D) × (choose_victim s ≡ some (s', none))
        × Retains io s s'
        × (s'.frames ≡ s.frames)
        × All (λ i. (s.frames i).latch ≢ 0) s.eviction_hints)
      ⊎ ((s₁ : BufferPool D) × (v : ℕ) × (s₂ : BufferPool D) × (choose_victim s ≡ some (s₁, some v))
          × (write_back io v s₁ ≡ some (s₂, ok tt))
          × Ready s v s₂)

  pub prepare : IsDisk io → Works io → (s : BufferPool D) → IsPool io s → Prepared s
  unfolding choose_victim
  prepare law works s p = elim (pop_hints-Choice io s p s.eviction_hints p.hints) [
    | inl stuck ↦ inl stuck
    | inr (s₁, v, e, c) ↦
        let b : v < s₁.num_frames = rw c.retains.num_frames c.bound in
        let (s₂, w, d) = write_back-Cleaned io law works s₁ c.retains.wf v b in
        inr (
          s₁,
          v,
          s₂,
          e,
          w,
          record {
            retains = record {
              wf = d.wf;
              keeps = λ k a (x, known, counted) (y, there, t) h.
                  d.keeps k a (x, rw c.retains.containers known, counted)
                    (y, rw c.retains.containers there, t)
                    (c.retains.keeps k a (x, known, counted) (y, there, t) h);
              containers = d.containers ∙ c.retains.containers;
              num_frames = d.num_frames ∙ c.retains.num_frames;
              page_to_frame = d.page_to_frame ∙ c.retains.page_to_frame;
            };
            bound = rw d.num_frames b;
            was_free = c.was_free;
            latch = d.latch ∙ c.latch;
            is_clean = d.is_clean;
            others = λ j ne. ap (λ (g : BufferFrame). g.latch) (d.others j ne) ∙ c.others j ne;
          },
        )
  ]

  pub without_unmapped :
      (m : PageToFrame) (o : Option ContainerPageId) (k : ContainerPageId)
      → get m k ≡ none
      → get (without o m) k ≡ none
  without_unmapped m none k e = e
  without_unmapped m (some k₀) k e = elim (Bool-cases (same_key k₀ k)) [
    | inl t ↦ rw ((same_key_iff k₀ k).0 t) (get-erase_self m k)
    | inr t ↦ get-erase_ne m k₀ k (λ same. cc (t, (same_key_iff k₀ k).1 same)) ∙ e
  ]

  pub unmap_lem :
      (s : BufferPool D)
      → IsPool io s
      → (v : ℕ) → v < s.num_frames
      → (o : Option ContainerPageId) → (s.frames v).key ≡ o
      → unmap o s.page_to_frame ≡ some (without o s.page_to_frame)
  unfolding unmap remove
  unmap_lem s p v b none e = refl
  unmap_lem s p v b (some k) e = rw (unmap, p.keyed k v b e) refl

  pub insert_lem :
      (m : PageToFrame) (k : ContainerPageId) (v : ℕ)
      → get m k ≡ none
      → insert m k v ≡ some ((k, v) ∷ m)
  unfolding insert
  insert_lem m k v e = rw (insert, e) refl

  pub remap_lem :
      (s : BufferPool D)
      → IsPool io s
      → (k : ContainerPageId) (v : ℕ) → v < s.num_frames
      → get s.page_to_frame k ≡ none
      → remap k v s ≡ some (remapped k v s)
  unfolding remap
  remap_lem s p k v b e =
      rw (remap, unmap_lem s p v b (s.frames v).key refl)
        (ap (λ (r : OrPanic PageToFrame). r >>= λ m'. some (record s { page_to_frame = m' }))
          (insert_lem (without (s.frames v).key s.page_to_frame) k v
            (without_unmapped s.page_to_frame (s.frames v).key k e)))

  load_lem :
      (s : BufferPool D) (k : ContainerPageId) (v : ℕ) (a : Array) (x : Container)
      → s.containers k.c_id ≡ some x
      → OnDisk io s.disk k a
      → load io k v s ≡ some (set_frame v (loaded s k v a) s, ok v)
  unfolding load get_container read_page
  load_lem s k v a x known shows =
      let there : ltb k.page_id (num_pages io s.disk k.c_id % 2 ^ 32) ≡ true =
        ground (arith, shows.2) in
      let its_id : (get_page_id a == k.page_id) ≡ true = ground (arith, shows.1) in
      rw (load, get_container, known, read_page, there, shows.0 (s.frames v).page, its_id) refl

  pub fault_lem :
      (s : BufferPool D)
      → (p : IsPool io s) → (k : ContainerPageId) (v : ℕ) (a : Array) → v < s.num_frames
      → get s.page_to_frame k ≡ none
      → IsRegistered s k
      → OnDisk io s.disk k a
      → (take_latch : BufferFrame → Option BufferFrame) (refusal : Reply ℕ)
        (finish : ℕ → BufferPool D → OrPanic (BufferPool D × Reply ℕ))
      → fault io take_latch refusal finish k v s ≡ finish v (given io s p v k (loaded s k v a))
  unfolding fault set_frame
  fault_lem s p k v a b e (x, known, counted) shows take_latch refusal finish =
      rw (fault, e, remap_lem s p k v b e, load_lem (remapped k v s) k v a x known shows) refl
