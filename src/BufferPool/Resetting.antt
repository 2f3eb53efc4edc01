-- ===== src/BufferPool/Resetting.antt =====
-- `flush_all_and_reset` on a disk that works. Its loop empties frames whose mappings stay until the
-- end: each step is that of the pool in which the mappings of the emptied frames are gone.
use crusty_db.Prelude.{
  ℕ, ◌<◌, ◌==◌, ◌≡◌, ◌≢◌, refl, ◌∙◌, ap, inl, inr, Bool, true, false, List, Option, none, some,
  OrPanic, Bool-cases, ◌∷◌, ltb, Option-cases,
}
use crusty_db.Latch.{minus_one, release_exclusive}
use crusty_db.BaseFile.{Disk, IsDisk, num_pages, write_page}
use crusty_db.Page.{get_page_id}
use crusty_db.BufferPool.{ContainerPageId, BufferFrame, BufferPool, set_frame, PageToFrame}
use crusty_db.BufferPool.Frames.{try_write, drop_write, clear}
use crusty_db.BufferPool.Catalog.{get_container, write_to, u32_mod, new_container, set_container}
use crusty_db.BufferPool.Serving.{write_back}
use crusty_db.BufferPool.Flush.{empty_frames}
use crusty_db.BufferPool.Invariant.{IsPool, Keeps}
use crusty_db.BufferPool.Framing.{put_at_self, put_at_other, set_frame-IsPool, set_frame-Keeps}
use crusty_db.BufferPool.Writing.{Works, Cleaned, write_back-Cleaned}
use crusty_db.BufferPool.Victims.{try_write_cases}
use crusty_db.BufferPool.Evicting.{evicted, evicted-IsPool, evicted-Keeps}

cleared_key : (f : BufferFrame) → (drop_write (clear f)).key ≡ none
unfolding drop_write clear
cleared_key f = refl

module _ {D : Type 0} where
  abbrev pub with_map : PageToFrame → BufferPool D → BufferPool D
  with_map m s = record s { page_to_frame = m }

  abbrev pub mapped_result :
      {A : Type 0} → PageToFrame → OrPanic (BufferPool D × A) → OrPanic (BufferPool D × A)
  mapped_result m none = none
  mapped_result m (some (s, r)) = some (with_map m s, r)

module _ {D : Type 0} (io : Disk D) where
  -- A write-back does not look at the mappings.
  write_back_map :
      (i : ℕ) (m : PageToFrame) (s : BufferPool D)
      → write_back io i (with_map m s) ≡ mapped_result m (write_back io i s)
  unfolding write_back get_container write_to write_page new_container set_container set_frame
  write_back_map i m s = go (s.frames i).key refl (s.frames i).is_dirty refl
    where
      go :
          (o : Option ContainerPageId)
          → (s.frames i).key ≡ o
          → (d : Bool) → (s.frames i).is_dirty ≡ d
          → write_back io i (with_map m s) ≡ mapped_result m (write_back io i s)
      go none e d h = rw (write_back, e) refl
      go (some k) e false h = rw (write_back, e, h) refl
      go (some k) e true h = elim (Option-cases (s.containers k.c_id)) [
        | inl unknown ↦ elim (Bool-cases (ltb (num_pages io s.disk k.c_id) u32_mod)) [
          | inl fits ↦ elim (Bool-cases (get_page_id (s.frames i).page == k.page_id)) [
            | inl own ↦
                rw
                  (
                    write_back, e, h, get_container, unknown, new_container, fits, write_to,
                    write_page, own,
                  )
                  refl
            | inr other ↦
                rw
                  (
                    write_back, e, h, get_container, unknown, new_container, fits, write_to,
                    write_page, other,
                  )
                  refl
          ]
          | inr big ↦ rw (write_back, e, h, get_container, unknown, new_container, big) refl
        ]
        | inr (x, known) ↦ elim (Bool-cases x.is_temp) [
          | inl temp ↦ rw (write_back, e, h, get_container, known, write_to, temp) refl
          | inr temp ↦ elim (Bool-cases (get_page_id (s.frames i).page == k.page_id)) [
            | inl own ↦
                rw (write_back, e, h, get_container, known, write_to, temp, write_page, own) refl
            | inr other ↦
                rw (write_back, e, h, get_container, known, write_to, temp, write_page, other) refl
          ]
        ]
      ]

module _ {D : Type 0} (io : Disk D) (law : IsDisk io) (works : Works io) where
  -- What emptying frame `i` does to the pool.
  pub record Emptied (i : ℕ) (s s' : BufferPool D) : Type 0 where
    pub wf : IsPool io s'
    pub keeps : Keeps io s s'
    pub containers : s'.containers ≡ s.containers
    pub num_frames : s'.num_frames ≡ s.num_frames
    pub key : (s'.frames i).key ≡ none
    pub latch : (s'.frames i).latch ≡ 0
    pub others : (j : ℕ) → j ≢ i → s'.frames j ≡ s.frames j

  module _ (s : BufferPool D) (p : IsPool io s) (i : ℕ) (b : i < s.num_frames)
      (free : (s.frames i).latch ≡ 0) (m : PageToFrame) where
    abbrev pub locked : BufferFrame
    locked = record (s.frames i) { latch = minus_one }

    can_write : try_write false (s.frames i) ≡ some locked
    can_write = elim (try_write_cases false (s.frames i)) [
      | inl (taken, e) ↦ absurd (taken free)
      | inr (open_latch, e) ↦ e
    ]

    locked-IsPool : IsPool io (set_frame i locked s)
    locked-IsPool = set_frame-IsPool io s p i locked refl (p.sound i b)

    Emptied-evicted :
        (s₂ : BufferPool D) (d : Cleaned io i (set_frame i locked s) s₂) (b₂ : i < s₂.num_frames)
        → Emptied i s
            (evicted io s₂ d.wf i b₂ (drop_write (clear (s₂.frames i))) (cleared_key (s₂.frames i)))
    unfolding set_frame drop_write clear release_exclusive
    Emptied-evicted s₂ d b₂ =
        let g = drop_write (clear (s₂.frames i)) in
        let e = put_at_self s₂.frames i g in
        record {
          wf = evicted-IsPool io s₂ d.wf i b₂ g refl refl;
          keeps = λ k a (x, r, counts) (y, there, lasts) h.
              evicted-Keeps io s₂ d.wf i b₂ g refl ((d.wf.sound i b₂).1 d.is_clean) k a
                (x, rw d.containers r, counts) (y, rw d.containers there, lasts)
                (d.keeps k a (x, r, counts) (y, there, lasts)
                  (set_frame-Keeps io s p i locked refl refl k a (x, r, counts) (y, there, lasts)
                    h));
          containers = d.containers;
          num_frames = d.num_frames;
          key = ap (λ (f : BufferFrame). f.key) e;
          latch = ap (λ (f : BufferFrame). f.latch) e;
          others = λ j ne.
              put_at_other s₂.frames i j g ne ∙ d.others j ne ∙ put_at_other s.frames i j locked ne;
        }

    pub empty_step :
        (is : List ℕ)
        → (s' : BufferPool D) × (empty_frames io (i ∷ is) (with_map m s)
            ≡ empty_frames io is (with_map m s'))
          × Emptied i s s'
    unfolding empty_frames set_frame
    empty_step is =
        let (s₂, w, d) = write_back-Cleaned io law works (set_frame i locked s) locked-IsPool i b in
        let b₂ : i < s₂.num_frames = rw d.num_frames b in
        (
          evicted io s₂ d.wf i b₂ (drop_write (clear (s₂.frames i))) (cleared_key (s₂.frames i)),
          rw
              (
                empty_frames,
                can_write,
                write_back_map io i m (set_frame i locked s) ∙ ap (mapped_result m) w,
              )
              refl,
          Emptied-evicted s₂ d b₂,
        )
