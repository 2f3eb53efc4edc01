-- ===== src/BufferPool/Created.antt =====
-- `create_new_page_for_write` on a disk that works.
use crusty_db.Prelude.{
  ℕ, ◌+◌, ◌<◌, ◌≡◌, ◌≢◌, refl, sym, ◌∙◌, ap, inl, inr, true, none, some, All, arith,
}
use crusty_db.Latch.{minus_one}
use crusty_db.Page.{set_page_id, get_page_id}
use crusty_db.Page.Fields.{get-set_page_id}
use crusty_db.BaseFile.{Disk, IsDisk}
use crusty_db.BufferPool.{
  BufferFrame, BufferPool, Container, set_frame, Reply, ok, err, cannot_evict_page,
}
use crusty_db.BufferPool.Mapping.{get}
use crusty_db.BufferPool.Catalog.{u32_mod, set_container, inc_page_count, get_container}
use crusty_db.BufferPool.Pages.{new_page_in, create_new_page_for_write}
use crusty_db.BufferPool.Invariant.{IsPool, Keeps}
use crusty_db.BufferPool.Framing.{put_at_self, put_at_other, without}
use crusty_db.BufferPool.Placing.{given, given-IsPool, given-Holds, get_self}
use crusty_db.BufferPool.Writing.{Works}
use crusty_db.BufferPool.Faulting.{Ready, prepare, unmap_lem, insert_lem, without_unmapped}
use crusty_db.BufferPool.Creating.{
  counted, next_key, bumped, bumped-IsPool, IsPersistent-bumped, next_unmapped, next_IsRegistered,
}

-- What a new page is: a page of the container that was not registered, whose page id is the old
-- page count, in a frame that was free and is latched exclusively, dirty, and has the page id.
pub record Created {D : Type 0} (s : BufferPool D) (c : ℕ) (x : Container) (i : ℕ)
    (s' : BufferPool D) : Type 0 where
  pub was_free : (s.frames i).latch ≡ 0
  pub was_unmapped : get s.page_to_frame (next_key c x) ≡ none
  pub there : get s'.page_to_frame (next_key c x) ≡ some i
  pub registered : s'.containers c ≡ some (counted x)
  pub key : (s'.frames i).key ≡ some (next_key c x)
  pub page_id : get_page_id (s'.frames i).page ≡ x.page_count
  pub latch : (s'.frames i).latch ≡ minus_one
  pub dirty : (s'.frames i).is_dirty ≡ true
  pub others : (j : ℕ) → j ≢ i → (s'.frames j).latch ≡ (s.frames j).latch

module _ {D : Type 0} (io : Disk D) (s s₂ : BufferPool D) (c : ℕ) (x : Container) (v : ℕ)
    (p : IsPool io s) (ready : Ready io s v s₂) (there : s.containers c ≡ some x)
    (room : x.page_count + 1 < u32_mod) where
  abbrev pub there₂ : s₂.containers c ≡ some x
  there₂ = rw ready.retains.containers there

  abbrev pub blank_frame : BufferFrame
  blank_frame = record (s₂.frames v) {
    page = set_page_id (s₂.frames v).page x.page_count;
    key = some (next_key c x);
    is_dirty = true;
  }

  abbrev pub grown : BufferPool D
  grown =
      given io (bumped io c x s₂ ready.retains.wf there₂ room)
        (bumped-IsPool io c x s₂ ready.retains.wf there₂ room) v (next_key c x) blank_frame

  grows : new_page_in io c v s₂ ≡ some (grown, ok v)
  unfolding new_page_in inc_page_count get_container set_container set_frame
  grows =
      rw
        (
          new_page_in,
          unmap_lem io s₂ ready.retains.wf v ready.bound (s₂.frames v).key refl,
          inc_page_count,
          get_container,
          there₂,
        )
        (rw
          (insert_lem io (without (s₂.frames v).key s₂.page_to_frame) (next_key c x) v (
            without_unmapped io s₂.page_to_frame (s₂.frames v).key (next_key c x)
              (next_unmapped io c x s₂ ready.retains.wf there₂ room)))
          refl)

  grown-IsPool : IsPool io grown
  unfolding set_container
  grown-IsPool =
      given-IsPool io (bumped io c x s₂ ready.retains.wf there₂ room)
        (bumped-IsPool io c x s₂ ready.retains.wf there₂ room) v (next_key c x) blank_frame
        ready.bound refl (next_unmapped io c x s₂ ready.retains.wf there₂ room)
        (next_IsRegistered io c x s₂ ready.retains.wf there₂ room)
        (
          λ e. absurd cc,
          λ e. absurd cc,
          λ k e.
              let same : next_key c x ≡ k = ground (arith, e) in
              rw (sym same)
                ((get-set_page_id (s₂.frames v).page x.page_count (omega (arith, room))).0, room),
        )

  grown-Keeps : Keeps io s grown
  unfolding set_container
  grown-Keeps k a (y, known, counts) (z, e, lasts) h =
      let b = bumped-IsPool io c x s₂ ready.retains.wf there₂ room in
      given-Holds io (bumped io c x s₂ ready.retains.wf there₂ room) b v (next_key c x) blank_frame
        ready.bound ((b.sound v ready.bound).1 ready.is_clean) k a
        (λ same. ground (arith, same, known, counts, there))
        (IsPersistent-bumped io c x s₂ ready.retains.wf there₂ room k.c_id
          (z, rw ready.retains.containers e, lasts))
        (ready.retains.keeps k a (y, known, counts) (z, e, lasts) h)

  grown-Created : Created s c x v grown
  unfolding set_container set_frame
  grown-Created =
      let e = put_at_self s₂.frames v blank_frame in
      record {
        was_free = ready.was_free;
        was_unmapped = next_unmapped io c x s p there room;
        there =
            get_self io (bumped io c x s₂ ready.retains.wf there₂ room)
              (bumped-IsPool io c x s₂ ready.retains.wf there₂ room) v (next_key c x) blank_frame;
        registered = put_at_self s₂.containers c (some (counted x));
        key = ap (λ (g : BufferFrame). g.key) e;
        page_id =
            ap (λ (g : BufferFrame). get_page_id g.page) e
            ∙ (get-set_page_id (s₂.frames v).page x.page_count (omega (arith, room))).0;
        latch = ap (λ (g : BufferFrame). g.latch) e ∙ ready.latch;
        dirty = ap (λ (g : BufferFrame). g.is_dirty) e;
        others = λ j ne.
            ap (λ (g : BufferFrame). g.latch) (put_at_other s₂.frames v j blank_frame ne)
            ∙ ready.others j ne;
      }

-- What the call ends with: a new page, or a refusal because every frame among the hints is latched.
abbrev pub Creates : {D : Type 0} → BufferPool D → ℕ → Container → Reply ℕ → BufferPool D → Type 0
Creates s c x (ok i) s' = Created s c x i s'
Creates s c x (err e) s' =
    (e ≡ cannot_evict_page)
    × All (λ i. (s.frames i).latch ≢ 0) s.eviction_hints
    × ((j : ℕ) → (s'.frames j).latch ≡ (s.frames j).latch)

-- On a well-formed pool over a disk that works, for a known container of fewer than 2^32 - 1
-- pages: `create_new_page_for_write` returns, leaves the pool well-formed and the content of
-- every registered page of a container that is not temporary as it was; either it gives a page
-- that was not there, in a frame that nobody had latched, or it refuses because every frame
-- among the hints is latched. No other frame's latch changes.
pub create_new_page_for_write-Creates :
    {D : Type 0} (io : Disk D)
    → IsDisk io
    → Works io
    → (s : BufferPool D) → IsPool io s
    → (c : ℕ) (x : Container) → s.containers c ≡ some x
    → x.page_count + 1 < u32_mod
    → (s' : BufferPool D) × (r : Reply ℕ) × (create_new_page_for_write io c s ≡ some (s', r))
      × IsPool io s'
      × Keeps io s s'
      × Creates s c x r s'
unfolding create_new_page_for_write
create_new_page_for_write-Creates io law works s p c x there room =
    elim (prepare io law works s p) [
      | inl (s', h, r, same, all) ↦ (
        s',
        err cannot_evict_page,
        rw (create_new_page_for_write, h) refl,
        r.wf,
        r.keeps,
        (refl, all, λ j. ap (λ (g : ℕ → BufferFrame). (g j).latch) same),
      )
      | inr (s₁, v, s₂, chosen, written, ready) ↦ (
        grown io s s₂ c x v p ready there room,
        ok v,
        rw (create_new_page_for_write, chosen, written) (grows io s s₂ c x v p ready there room),
        grown-IsPool io s s₂ c x v p ready there room,
        grown-Keeps io s s₂ c x v p ready there room,
        grown-Created io s s₂ c x v p ready there room,
      )
    ]
