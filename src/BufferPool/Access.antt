-- ===== src/BufferPool/Access.antt =====
-- `get_page_for_write` and `get_page_for_read` on a disk that works.
use crusty_db.Prelude.{
  ℕ, ◌+◌, ◌%◌, ◌≡◌, ◌≢◌, refl, ◌∙◌, ap, inl, inr, true, false, Option, none, some, ◌>>=◌,
}
use crusty_db.Bytes.{Array}
use crusty_db.Latch.{minus_one, i16_mod, is_negative}
use crusty_db.BaseFile.{Disk, IsDisk}
use crusty_db.BufferPool.{
  ContainerPageId, BufferFrame, BufferPool, set_frame, ok, err, cannot_evict_page,
  frame_write_latch_grant_failed, frame_read_latch_grant_failed,
}
use crusty_db.BufferPool.Mapping.{get}
use crusty_db.BufferPool.Frames.{try_read, try_write, downgrade_guard}
use crusty_db.BufferPool.Serving.{choose_victim, write_back, fault}
use crusty_db.BufferPool.Pages.{get_page, get_page_for_write, get_page_for_read}
use crusty_db.BufferPool.Invariant.{IsPool, IsRegistered, IsPersistent, Holds, HeldBy}
use crusty_db.BufferPool.Framing.{put_at_self, put_at_other, set_frame-IsPool, set_frame-Keeps}
use crusty_db.BufferPool.Placing.{get_self}
use crusty_db.BufferPool.Writing.{Works}
use crusty_db.BufferPool.Victims.{try_write_cases, try_read_cases, downgrade_guard_held}
use crusty_db.BufferPool.Faulting.{Ready, prepare, fault_lem, loaded}
use crusty_db.BufferPool.Granting.{Served, Mode, Gives, present, Granted-in, taken-IsSound}
use crusty_db.BufferPool.Installing.{
  still_unmapped, still_known, on_disk, installed, installed-IsPool, installed-Keeps,
}

module _ {D : Type 0} (io : Disk D) (law : IsDisk io) (works : Works io) (m : Mode D)
    (s : BufferPool D) (p : IsPool io s) (k : ContainerPageId) (a : Array)
    (known : IsRegistered s k) (lasting : IsPersistent s k.c_id) (holds : Holds io s k a) where
  -- The call, run to its end.
  end :
      (s₁ : BufferPool D) (v : ℕ) (s₂ : BufferPool D) (e : get s.page_to_frame k ≡ none)
      → choose_victim s ≡ some (s₁, some v)
      → write_back io v s₁ ≡ some (s₂, ok tt)
      → (ready : Ready io s v s₂)
      → ((installed io s s₂ k v ready e known lasting a holds).frames v).latch ≡ minus_one
      → get_page io m.take_latch (err m.status) m.finish k s
        ≡ some (
          set_frame v
              (m.finished ((installed io s s₂ k v ready e known lasting a holds).frames v))
              (installed io s s₂ k v ready e known lasting a holds),
          ok v,
        )
  unfolding get_page
  end s₁ v s₂ e chosen written ready latch =
      reaches
      ∙ fault_lem io s₂ ready.retains.wf k v a ready.bound
          (still_unmapped io s s₂ k v ready e known lasting)
          (still_known io s s₂ k v ready e known lasting)
          (on_disk io s s₂ k v ready e known lasting a holds) m.take_latch (err m.status) m.finish
      ∙ m.finishes v (installed io s s₂ k v ready e known lasting a holds) latch
    where
      reaches :
          get_page io m.take_latch (err m.status) m.finish k s
          ≡ fault io m.take_latch (err m.status) m.finish k v s₂
      reaches = rw (get_page, e, chosen, written, ready.is_clean) refl

  faults :
      get s.page_to_frame k ≡ none
      → (s₁ : BufferPool D) (v : ℕ) (s₂ : BufferPool D) → choose_victim s ≡ some (s₁, some v)
      → write_back io v s₁ ≡ some (s₂, ok tt)
      → Ready io s v s₂
      → Gives io m s k a
  unfolding get_page set_frame
  faults e s₁ v s₂ chosen written ready =
      let t = installed io s s₂ k v ready e known lasting a holds in
      let pt = installed-IsPool io s s₂ k v ready e known lasting a holds in
      let f : BufferFrame = t.frames v in
      let is_loaded : f ≡ loaded s₂ k v a = put_at_self s₂.frames v (loaded s₂ k v a) in
      let latch : f.latch ≡ minus_one = ap (λ (g : BufferFrame). g.latch) is_loaded ∙ ready.latch in
      let key : f.key ≡ some k = ap (λ (g : BufferFrame). g.key) is_loaded in
      let g = m.finished f in
      let taken = m.finished-Takes f in
      (
        set_frame v g t,
        ok v,
        end s₁ v s₂ e chosen written ready latch,
        record {
          wf =
              set_frame-IsPool io t pt v g taken.0
                (taken-IsSound io t f g k key taken (pt.sound v ready.bound));
          keeps = λ k' a' (x, r, counted) (y, there, lasts) h.
              set_frame-Keeps io t pt v g taken.0 taken.1 k' a'
                (x, rw ready.retains.containers r, counted)
                (y, rw ready.retains.containers there, lasts)
                (installed-Keeps io s s₂ k v ready e known lasting a holds k' a' (x, r, counted)
                  (y, there, lasts) h);
          containers = ready.retains.containers;
          num_frames = ready.retains.num_frames;
        },
        Granted-in io m s t k a v g (get_self io s₂ ready.retains.wf v k (loaded s₂ k v a))
            ready.bound (taken.0 ∙ key) (taken.1 ∙ ap (λ (g : BufferFrame). g.page) is_loaded)
            (m.finished-Held (s.frames v) f ready.was_free latch)
            (λ j ne.
              ap (λ (g : BufferFrame). g.latch) (put_at_other s₂.frames v j (loaded s₂ k v a) ne)
              ∙ ready.others j ne)
            (λ j there. absurd (cc (e, there))),
      )

  absent : get s.page_to_frame k ≡ none → Gives io m s k a
  unfolding get_page
  absent e = elim (prepare io law works s p) [
    | inl (s', h, r, same, all) ↦ (
      s',
      err cannot_evict_page,
      rw (get_page, e, h) refl,
      record { wf = r.wf; keeps = r.keeps; containers = r.containers; num_frames = r.num_frames },
      (inr (refl, e, all), λ j. ap (λ (g : ℕ → BufferFrame). (g j).latch) same),
    )
    | inr (s₁, v, s₂, chosen, written, ready) ↦ faults e s₁ v s₂ chosen written ready
  ]

  pub get_page-Gives : Gives io m s k a
  get_page-Gives = go (get s.page_to_frame k) refl holds
    where
      go : (o : Option ℕ) → get s.page_to_frame k ≡ o → HeldBy io s k a o → Gives io m s k a
      go none e h = absent e
      go (some i) e h = present io m s p k a i e h

write_mode : {D : Type 0} → Mode D
write_mode = record {
  take_latch = try_write true;
  status = frame_write_latch_grant_failed;
  Held = λ f g. (f.latch ≡ 0) × (g.latch ≡ minus_one) × (g.is_dirty ≡ true);
  Taken = λ f. f.latch ≢ 0;
  takes = λ f. elim (try_write_cases true f) [
    | inl h ↦ inl h
    | inr (free, h) ↦ inr (
      record f { latch = minus_one; is_dirty = true },
      h,
      (refl, refl, λ e. absurd cc),
      (free, refl, refl),
    )
  ];
  finished = λ f. record f { is_dirty = true };
  finish = λ i s. some (set_frame i (record (s.frames i) { is_dirty = true }) s, ok i);
  finishes = λ v s e. refl;
  finished-Takes = λ f. (refl, refl, λ e. absurd cc);
  finished-Held = λ f g free held. (free, held, refl);
}

read_mode : {D : Type 0} → Mode D
read_mode = record {
  take_latch = try_read;
  status = frame_read_latch_grant_failed;
  Held = λ f g. (is_negative f.latch ≡ false) × (g.latch ≡ (f.latch + 1) % i16_mod);
  Taken = λ f. is_negative f.latch ≡ true;
  takes = λ f. elim (try_read_cases f) [
    | inl h ↦ inl h
    | inr (free, h) ↦
        inr (record f { latch = (f.latch + 1) % i16_mod }, h, (refl, refl, λ e. e), (free, refl))
  ];
  finished = λ f. record f { latch = 1 };
  finish = λ i s. downgrade_guard (s.frames i) >>= λ f. some (set_frame i f s, ok i);
  finishes = λ v s e. rw (downgrade_guard_held (s.frames v) e) refl;
  finished-Takes = λ f. (refl, refl, λ e. e);
  finished-Held = λ f g free held. (rw free refl, rw free refl);
}

-- On a well-formed pool over a disk that works, for a registered page of a container that is not
-- temporary, with its content in its frame or else, under the page's own id, in the file:
-- `get_page_for_write` returns without a panic, leaves the pool well-formed and the content of
-- every registered page of such a container as it was; either it gives a frame that nobody had latched,
-- which is mapped to the page, has its content, is latched exclusively and is dirty; or it
-- refuses because the page's frame is latched, or because the page is in no frame and every
-- frame among the hints is latched. No other frame's latch changes.
pub get_page_for_write-Served :
    {D : Type 0} (io : Disk D)
    → IsDisk io
    → Works io
    → (s : BufferPool D) → IsPool io s
    → (k : ContainerPageId) (a : Array) → IsRegistered s k
    → IsPersistent s k.c_id
    → Holds io s k a
    → Served io
        (λ f g. (f.latch ≡ 0) × (g.latch ≡ minus_one) × (g.is_dirty ≡ true))
        (λ f. f.latch ≢ 0)
        frame_write_latch_grant_failed
        s
        k
        a
        (get_page_for_write io k s)
unfolding get_page_for_write write_mode
get_page_for_write-Served io law works s p k a known lasting holds =
    get_page-Gives io law works write_mode s p k a known lasting holds

-- On a well-formed pool over a disk that works, for a registered page of a container that is not
-- temporary, with its content in its frame or else, under the page's own id, in the file:
-- `get_page_for_read` returns without a panic, leaves the pool well-formed and the content of
-- every registered page of such a container as it was; either it gives a frame that nobody had
-- latched exclusively, which is mapped to the page, has its content and has one reader more; or it
-- refuses because the page's frame is latched exclusively, or because the page is in no frame and
-- every frame among the hints is latched. No other frame's latch changes.
pub get_page_for_read-Served :
    {D : Type 0} (io : Disk D)
    → IsDisk io
    → Works io
    → (s : BufferPool D) → IsPool io s
    → (k : ContainerPageId) (a : Array) → IsRegistered s k
    → IsPersistent s k.c_id
    → Holds io s k a
    → Served io
        (λ f g. (is_negative f.latch ≡ false) × (g.latch ≡ (f.latch + 1) % i16_mod))
        (λ f. is_negative f.latch ≡ true)
        frame_read_latch_grant_failed
        s
        k
        a
        (get_page_for_read io k s)
unfolding get_page_for_read read_mode
get_page_for_read-Served io law works s p k a known lasting holds =
    get_page-Gives io law works read_mode s p k a known lasting holds
