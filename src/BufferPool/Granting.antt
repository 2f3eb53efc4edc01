-- ===== src/BufferPool/Granting.antt =====
-- What a caller gets that asks for a page: from its frame, or from a file.
use crusty_db.Prelude.{
  ℕ, ◌<◌, ◌≡◌, ◌≢◌, refl, sym, ◌∙◌, ap, ◌⊎◌, inl, inr, false, Option, none, some, All, OrPanic,
  lt→ltb,
}
use crusty_db.Bytes.{Array}
use crusty_db.Latch.{minus_one}
use crusty_db.BaseFile.{Disk}
use crusty_db.BufferPool.{
  ContainerPageId, BufferFrame, BufferPool, set_frame, Reply, ok, err, MemPoolStatus,
  cannot_evict_page,
}
use crusty_db.BufferPool.Mapping.{get}
use crusty_db.BufferPool.Serving.{grant}
use crusty_db.BufferPool.Pages.{get_page}
use crusty_db.BufferPool.Invariant.{IsPool, Kept, IsSound}
use crusty_db.BufferPool.Framing.{set_frame-IsPool, set_frame-Keeps, put_at_self, put_at_other}

-- A frame and the frame after its latch is taken: the same page, and not made clean.
abbrev pub Takes : BufferFrame → BufferFrame → Type 0
Takes f g = (g.key ≡ f.key) × (g.page ≡ f.page) × (g.is_dirty ≡ false → f.is_dirty ≡ false)

module _ {D : Type 0} (io : Disk D) where
  -- Page `k`, of content `a`, is in frame `i`, which `Held` relates to the frame as it was before.
  pub record Granted (Held : BufferFrame → BufferFrame → Type 0) (s : BufferPool D)
      (k : ContainerPageId) (a : Array) (i : ℕ) (s' : BufferPool D) : Type 0 where
    pub there : get s'.page_to_frame k ≡ some i
    pub bound : i < s'.num_frames
    pub key : (s'.frames i).key ≡ some k
    pub page : (s'.frames i).page ≡ a
    pub held : Held (s.frames i) (s'.frames i)
    pub others : (j : ℕ) → j ≢ i → (s'.frames j).latch ≡ (s.frames j).latch
    pub mapping : (j : ℕ) → get s.page_to_frame k ≡ some j → s'.page_to_frame ≡ s.page_to_frame

  -- A refusal: the page's frame is latched against the caller, which has `status`; or the page is
  -- in no frame and all frames that may be chosen are latched.
  abbrev pub Refused :
      (BufferFrame → Type 0)
      → MemPoolStatus
      → BufferPool D
      → ContainerPageId
      → MemPoolStatus
      → Type 0
  Refused Taken status s k e =
      ((e ≡ status) × ((i : ℕ) × (get s.page_to_frame k ≡ some i) × Taken (s.frames i)))
      ⊎ ((e ≡ cannot_evict_page)
          × (get s.page_to_frame k ≡ none)
          × All (λ i. (s.frames i).latch ≢ 0) s.eviction_hints)

  module _ (Held : BufferFrame → BufferFrame → Type 0) (Taken : BufferFrame → Type 0)
      (status : MemPoolStatus) (s : BufferPool D) (k : ContainerPageId) (a : Array) where
    abbrev pub Answers : Reply ℕ → BufferPool D → Type 0
    Answers (ok i) s' = Granted Held s k a i s'
    Answers (err e) s' =
        Refused Taken status s k e × ((j : ℕ) → (s'.frames j).latch ≡ (s.frames j).latch)

    -- The call returns; the pool is well-formed, and no page has another content.
    abbrev pub Served : OrPanic (BufferPool D × Reply ℕ) → Type 0
    Served result =
        (s' : BufferPool D) × (r : Reply ℕ) × (result ≡ some (s', r)) × Kept io s s' × Answers r s'

-- A frame with a page stays sound.
pub taken-IsSound :
    {D : Type 0} (io : Disk D) (s : BufferPool D) (f g : BufferFrame) (k : ContainerPageId)
    → f.key ≡ some k
    → Takes f g
    → IsSound io s f
    → IsSound io s g
taken-IsSound io s f g k e (key, page, clean) (blank, saved, its_id) = (
  λ none_there. absurd (cc (key, e, none_there)),
  λ h k' there t. rw page (saved (clean h) k' (sym key ∙ there) t),
  λ k' there. rw page (its_id k' (sym key ∙ there)),
)

-- The way a page is asked for: for reading or for writing. `Held` and `Taken` say when its frame's
-- latch is had and when not, and `finished` what is left to do with a frame that has been read in.
pub record Mode (D : Type 0) : Type 1 where
  pub take_latch : BufferFrame → Option BufferFrame
  pub status : MemPoolStatus
  pub Held : BufferFrame → BufferFrame → Type 0
  pub Taken : BufferFrame → Type 0
  pub takes :
      (f : BufferFrame)
      → (Taken f × (take_latch f ≡ none))
        ⊎ ((g : BufferFrame) × (take_latch f ≡ some g) × Takes f g × Held f g)
  pub finished : BufferFrame → BufferFrame
  pub finish : ℕ → BufferPool D → OrPanic (BufferPool D × Reply ℕ)
  pub finishes :
      (v : ℕ) (s : BufferPool D)
      → (s.frames v).latch ≡ minus_one
      → finish v s ≡ some (set_frame v (finished (s.frames v)) s, ok v)
  pub finished-Takes : (f : BufferFrame) → Takes f (finished f)
  pub finished-Held : (f g : BufferFrame) → f.latch ≡ 0 → g.latch ≡ minus_one → Held f (finished g)

module _ {D : Type 0} (io : Disk D) (m : Mode D) where
  abbrev pub Gives : BufferPool D → ContainerPageId → Array → Type 0
  Gives s k a =
      Served io m.Held m.Taken m.status s k a (get_page io m.take_latch (err m.status) m.finish k s)

  pub Granted-in :
      (s₀ s : BufferPool D) (k : ContainerPageId) (a : Array) (i : ℕ) (g : BufferFrame)
      → get s.page_to_frame k ≡ some i
      → i < s.num_frames
      → g.key ≡ some k
      → g.page ≡ a
      → m.Held (s₀.frames i) g
      → ((j : ℕ) → j ≢ i → (s.frames j).latch ≡ (s₀.frames j).latch)
      → ((j : ℕ) → get s₀.page_to_frame k ≡ some j → s.page_to_frame ≡ s₀.page_to_frame)
      → Granted io m.Held s₀ k a i (set_frame i g s)
  unfolding set_frame
  Granted-in s₀ s k a i g e b key page held others mapping =
      let same = put_at_self s.frames i g in
      record {
        there = e;
        bound = b;
        key = ap (λ (f : BufferFrame). f.key) same ∙ key;
        page = ap (λ (f : BufferFrame). f.page) same ∙ page;
        held = rw same held;
        others = λ j ne.
            ap (λ (f : BufferFrame). f.latch) (put_at_other s.frames i j g ne) ∙ others j ne;
        mapping = mapping;
      }

  pub present :
      (s : BufferPool D)
      → IsPool io s
      → (k : ContainerPageId) (a : Array) (i : ℕ) → get s.page_to_frame k ≡ some i
      → (s.frames i).page ≡ a
      → Gives s k a
  unfolding get_page grant set_frame
  present s p k a i e page =
      let (b, key, known) = p.mapped k i e in
      elim (m.takes (s.frames i)) [
        | inl (taken, h) ↦ (
          s,
          err m.status,
          rw (get_page, e, lt→ltb i s.num_frames b, h) refl,
          record { wf = p; keeps = λ k a r t h. h; containers = refl; num_frames = refl },
          (inl (refl, (i, e, taken)), λ j. refl),
        )
        | inr (g, h, t, held) ↦ (
          set_frame i g s,
          ok i,
          rw (get_page, e, lt→ltb i s.num_frames b, h) refl,
          record {
            wf =
                set_frame-IsPool io s p i g t.0
                  (taken-IsSound io s (s.frames i) g k key t (p.sound i b));
            keeps = set_frame-Keeps io s p i g t.0 t.1;
            containers = refl;
            num_frames = refl;
          },
          Granted-in s s k a i g e b (t.0 ∙ key) (t.1 ∙ page) held (λ j ne. refl) (λ j e. refl),
        )
      ]
