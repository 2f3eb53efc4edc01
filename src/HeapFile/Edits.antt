-- ===== src/HeapFile/Edits.antt =====
-- A page of the pool that is taken for writing, and given back with another content or the same.
use crusty_db.Prelude.{
  ℕ, ◌<◌, ◌==◌, ◌≡◌, ◌≢◌, refl, sym, ◌∙◌, ap, inl, inr, true, Option, none, some, arith, ==_iff,
  Bool-cases,
}
use crusty_db.Bytes.{Array}
use crusty_db.Page.{get_page_id}
use crusty_db.Page.Fields.{get_page_id-front}
use crusty_db.Latch.{minus_one, release_exclusive}
use crusty_db.BaseFile.{Disk}
use crusty_db.BufferPool.{ContainerPageId, BufferFrame, BufferPool, set_frame}
use crusty_db.BufferPool.Mapping.{get}
use crusty_db.BufferPool.Frames.{drop_write}
use crusty_db.BufferPool.Invariant.{IsPool, Kept, Holds, HeldBy}
use crusty_db.BufferPool.Framing.{put_at_self, put_at_other, set_frame-IsPool, set_frame-Keeps}
use crusty_db.BufferPool.Granting.{Granted}
use crusty_db.HeapFile.{edit, give_back}
use crusty_db.HeapFile.Guards.{Edited, Keeps_over}

abbrev pub Written : BufferFrame → BufferFrame → Type 0
Written f g = (f.latch ≡ 0) × (g.latch ≡ minus_one) × (g.is_dirty ≡ true)

module _ {D : Type 0} (io : Disk D) (s s₁ : BufferPool D) (k : ContainerPageId) (a : Array) (i : ℕ)
    (kept : Kept io s s₁) (g : Granted io Written s k a i s₁) where
  unlatched :
      (t : BufferPool D)
      → (t.frames i).latch ≡ 0
      → ((j : ℕ) → j ≢ i → (t.frames j).latch ≡ (s₁.frames j).latch)
      → (j : ℕ) → (t.frames j).latch ≡ (s.frames j).latch
  unlatched t here away j = elim (Bool-cases (j == i)) [
    | inl q ↦ rw ((==_iff j i).0 q) (here ∙ sym g.held.0)
    | inr q ↦ let ne : j ≢ i = λ same. cc (q, (==_iff j i).1 same) in away j ne ∙ g.others j ne
  ]

  -- The page as it was.
  pub returned :
      Kept io s (give_back i s₁)
      × ((j : ℕ) → ((give_back i s₁).frames j).latch ≡ (s.frames j).latch)
  unfolding give_back set_frame drop_write release_exclusive
  returned =
      let f = drop_write (s₁.frames i) in
      (
        record {
          wf = set_frame-IsPool io s₁ kept.wf i f refl (kept.wf.sound i g.bound);
          keeps =
              Keeps_over io s s₁ (give_back i s₁) kept
                (set_frame-Keeps io s₁ kept.wf i f refl refl);
          containers = kept.containers;
          num_frames = kept.num_frames;
        },
        unlatched (give_back i s₁) (ap (λ (h : BufferFrame). h.latch) (put_at_self s₁.frames i f))
            (λ j ne. ap (λ (h : BufferFrame). h.latch) (put_at_other s₁.frames i j f ne)),
      )

  module _ (q : Array) (front : (j : ℕ) → j < 16 → q j ≡ a j) where
    edited-IsPool : IsPool io (edit i q s₁)
    unfolding edit
    edited-IsPool =
        set_frame-IsPool io s₁ kept.wf i (record (s₁.frames i) { page = q }) refl
          (
            λ e. absurd (cc (e, g.key)),
            λ clean. absurd (cc (clean, g.held.2)),
            λ k' e.
                let (its_id, bound) = (kept.wf.sound i g.bound).2 k' e in
                (get_page_id-front q a front ∙ ap get_page_id (sym g.page) ∙ its_id, bound),
          )

    final : BufferPool D
    final = give_back i (edit i q s₁)

    frame_here : (final.frames i).page ≡ q × ((final.frames i).latch ≡ 0)
    unfolding final give_back edit set_frame drop_write release_exclusive
    frame_here =
        let f : BufferFrame = record (s₁.frames i) { page = q } in
        let h = drop_write ((edit i q s₁).frames i) in
        let e = put_at_self (edit i q s₁).frames i h in
        (
          ap (λ (x : BufferFrame). x.page) e
              ∙ ap (λ (x : BufferFrame). x.page) (put_at_self s₁.frames i f),
          ap (λ (x : BufferFrame). x.latch) e,
        )

    frame_away : (j : ℕ) → j ≢ i → final.frames j ≡ s₁.frames j
    unfolding final give_back edit set_frame
    frame_away j ne =
        put_at_other (edit i q s₁).frames i j (drop_write ((edit i q s₁).frames i)) ne
        ∙ put_at_other s₁.frames i j (record (s₁.frames i) { page = q }) ne

    holds_here : Holds io final k q
    unfolding final give_back edit set_frame
    holds_here = rw g.there frame_here.0

    holds_away :
        (k' : ContainerPageId) (a' : Array)
        → k ≢ k'
        → (o : Option ℕ) → get s₁.page_to_frame k' ≡ o
        → HeldBy io s₁ k' a' o
        → Holds io final k' a'
    unfolding final give_back edit set_frame
    holds_away k' a' ne none e h = rw e h
    holds_away k' a' ne (some j) e h =
        let away : j ≢ i = λ same. ne (ground (arith, g.key, (kept.wf.mapped k' j e).1, same)) in
        rw e (ap (λ (x : BufferFrame). x.page) (frame_away j away) ∙ h)

    pub Edited-give_back : Edited io s k q (give_back i (edit i q s₁))
    unfolding final give_back edit set_frame drop_write
    Edited-give_back = record {
      wf =
          set_frame-IsPool io (edit i q s₁) edited-IsPool i (drop_write ((edit i q s₁).frames i))
            refl (edited-IsPool.sound i g.bound);
      self = holds_here;
      others = λ k' a' ne r t h.
          holds_away k' a' ne (get s₁.page_to_frame k') refl (kept.keeps k' a' r t h);
      latches =
          unlatched final frame_here.1
            (λ j ne. ap (λ (x : BufferFrame). x.latch) (frame_away j ne));
      containers = kept.containers;
      num_frames = kept.num_frames;
      mapping = g.mapping;
    }
