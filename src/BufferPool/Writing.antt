-- ===== src/BufferPool/Writing.antt =====
-- Writing back a dirty frame on a disk that works.
use crusty_db.Prelude.{
  ℕ, ◌+◌, ◌%◌, ◌^◌, ◌≤◌, ◌<◌, ◌*◌, ◌==◌, ◌≡◌, ◌≢◌, refl, sym, ap, ◌⊎◌, inl, inr, Bool, true, false,
  Option, none, some, arith, Bool-cases,
}
use crusty_db.Bytes.{Array}
use crusty_db.BaseFile.{Disk, IsDisk, page_size, num_pages, write_page}
use crusty_db.Page.{get_page_id}
use crusty_db.BufferPool.{ContainerPageId, BufferFrame, BufferPool, Container, set_frame, ok}
use crusty_db.BufferPool.Mapping.{get}
use crusty_db.BufferPool.Catalog.{get_container, write_to}
use crusty_db.BufferPool.Serving.{write_back}
use crusty_db.BufferPool.Invariant.{IsPool, IsSound, Keeps, HeldBy, OnDisk}
use crusty_db.BufferPool.Framing.{put_at_self, put_at_other, set_frame-IsPool, set_frame-Keeps}

in_file : (p n m : ℕ) → p < n % 2 ^ 32 → n ≤ m → m < 2 ^ 32 → p < m % 2 ^ 32
in_file p n m h le few = omega (arith, h, le, few)

on_last : (p m : ℕ) → p < m → m < 2 ^ 32 → p < m % 2 ^ 32
on_last p m h few = omega (arith, h, few)

module _ {D : Type 0} (io : Disk D) where
  -- Writes of a page are never cut short, but for the last page of a file that has 2^32.
  abbrev pub Works : Type 0
  Works =
      (d : D) (c p : ℕ) (a : Array) → p + 1 < 2 ^ 32 → (io.pwrite d c (p * page_size) a).0 ≡ true

  -- What a write-back of frame `i` does: nothing but to make the frame clean.
  pub record Cleaned (i : ℕ) (s s' : BufferPool D) : Type 0 where
    pub wf : IsPool io s'
    pub keeps : Keeps io s s'
    pub containers : s'.containers ≡ s.containers
    pub num_frames : s'.num_frames ≡ s.num_frames
    pub page_to_frame : s'.page_to_frame ≡ s.page_to_frame
    pub eviction_hints : s'.eviction_hints ≡ s.eviction_hints
    pub is_clean : (s'.frames i).is_dirty ≡ false
    pub latch : (s'.frames i).latch ≡ (s.frames i).latch
    pub key : (s'.frames i).key ≡ (s.frames i).key
    pub page : (s'.frames i).page ≡ (s.frames i).page
    pub others : (j : ℕ) → j ≢ i → s'.frames j ≡ s.frames j

module _ {D : Type 0} (io : Disk D) (law : IsDisk io) (works : Works io) (s : BufferPool D)
    (p : IsPool io s) (i : ℕ) (b : i < s.num_frames) where
  untouched : (s.frames i).is_dirty ≡ false → Cleaned io i s s
  untouched clean = record {
    wf = p;
    keeps = λ k a r t h. h;
    containers = refl;
    num_frames = refl;
    page_to_frame = refl;
    eviction_hints = refl;
    is_clean = clean;
    latch = refl;
    key = refl;
    page = refl;
    others = λ j ne. refl;
  }

  abbrev pub cleaned : BufferPool D
  cleaned = set_frame i (record (s.frames i) { is_dirty = false }) s

  cleaned_lem : IsSound io s (record (s.frames i) { is_dirty = false }) → Cleaned io i s cleaned
  unfolding set_frame
  cleaned_lem sound =
      let f : BufferFrame = record (s.frames i) { is_dirty = false } in
      let e = put_at_self s.frames i f in
      record {
        wf = set_frame-IsPool io s p i f refl sound;
        keeps = set_frame-Keeps io s p i f refl refl;
        containers = refl;
        num_frames = refl;
        page_to_frame = refl;
        eviction_hints = refl;
        is_clean = ap (λ (g : BufferFrame). g.is_dirty) e;
        latch = ap (λ (g : BufferFrame). g.latch) e;
        key = ap (λ (g : BufferFrame). g.key) e;
        page = ap (λ (g : BufferFrame). g.page) e;
        others = λ j ne. put_at_other s.frames i j f ne;
      }

  -- The pool once the page of a dirty frame has been written.
  module _ (k : ContainerPageId) (key : (s.frames i).key ≡ some k)
      (dirty : (s.frames i).is_dirty ≡ true) where
    its_id : (get_page_id (s.frames i).page ≡ k.page_id) × (k.page_id + 1 < 2 ^ 32)
    its_id = (p.sound i b).2 k key

    abbrev pub written : BufferPool D
    written = record s {
      disk = (io.pwrite s.disk k.c_id (k.page_id * page_size) (s.frames i).page).1;
    }

    differs : (k' : ContainerPageId) → k ≢ k' → (k.c_id ≢ k'.c_id) ⊎ (k.page_id ≢ k'.page_id)
    differs k' ne = elim (Bool-cases (k.c_id == k'.c_id)) [
      | inl e ↦ inr (λ h. ne (ground (arith, e, h)))
      | inr e ↦ inl (λ h. ground (arith, e, h))
    ]

    elsewhere :
        (k' : ContainerPageId) (a : Array)
        → k ≢ k'
        → OnDisk io s.disk k' a
        → OnDisk io written.disk k' a
    elsewhere k' a ne h =
        let stays = law.stays s.disk k.c_id k.page_id (s.frames i).page k'.c_id in
        let few = law.small written.disk k'.c_id in
        (
          law.reads_other s.disk k.c_id k.page_id (s.frames i).page k'.c_id k'.page_id a
              (differs k' ne) h.0,
          h.1,
          in_file k'.page_id (num_pages io s.disk k'.c_id) (num_pages io written.disk k'.c_id) h.2
              stays few,
        )

    written-IsPool : IsPool io written
    written-IsPool = record {
      mapped = p.mapped;
      keyed = p.keyed;
      sound = λ j bj.
          let (blank, saved, its_id) = p.sound j bj in
          (
            blank,
            λ clean k' e t.
                elsewhere k' (s.frames j).page
                  (λ same.
                    let i_there = p.keyed k i b key in
                    let j_there = p.keyed k' j bj e in
                    let here : i ≡ j = ground (arith, i_there, j_there, same) in
                    cc (here, clean, dirty))
                  (saved clean k' e t),
            its_id,
          );
      hints = p.hints;
    }

    written-Keeps : Keeps io s written
    written-Keeps k' a r t h = go (get s.page_to_frame k') refl h
      where
        go :
            (o : Option ℕ)
            → get s.page_to_frame k' ≡ o
            → HeldBy io s k' a o
            → HeldBy io written k' a o
        go none e h = elsewhere k' a (λ same. cc (p.keyed k i b key, e, same)) h
        go (some j) e h = h

    written-IsSound : IsSound io written (record (s.frames i) { is_dirty = false })
    written-IsSound = (
      λ e. refl,
      λ clean k' e t.
          let same : k ≡ k' = ground (arith, key, e) in
          rw (sym same) (
            law.reads_back s.disk k.c_id (k.page_id * page_size) (s.frames i).page
                (works s.disk k.c_id k.page_id (s.frames i).page its_id.1),
            its_id.0,
            on_last k.page_id (num_pages io written.disk k.c_id)
                (law.reaches s.disk k.c_id k.page_id (s.frames i).page
                  (works s.disk k.c_id k.page_id (s.frames i).page its_id.1))
                (law.small written.disk k.c_id),
          ),
      (p.sound i b).2,
    )

-- Clean from a pool with other files, which kept the pages.
Cleaned-written :
    {D : Type 0} (io : Disk D) (i : ℕ) (s : BufferPool D) (d : D) (u : BufferPool D)
    → Keeps io s (record s { disk = d })
    → Cleaned io i (record s { disk = d }) u
    → Cleaned io i s u
Cleaned-written io i s d u kept c = record {
  wf = c.wf;
  keeps = λ k a r t h. c.keeps k a r t (kept k a r t h);
  containers = c.containers;
  num_frames = c.num_frames;
  page_to_frame = c.page_to_frame;
  eviction_hints = c.eviction_hints;
  is_clean = c.is_clean;
  latch = c.latch;
  key = c.key;
  page = c.page;
  others = c.others;
}

module _ {D : Type 0} (io : Disk D) (law : IsDisk io) (works : Works io) (s : BufferPool D)
    (p : IsPool io s) (i : ℕ) (b : i < s.num_frames) where
  abbrev pub WrittenBack : Type 0
  WrittenBack = (s' : BufferPool D) × (write_back io i s ≡ some (s', ok tt)) × Cleaned io i s s'

  written_temp :
      (k : ContainerPageId) (x : Container)
      → (s.frames i).key ≡ some k
      → (s.frames i).is_dirty ≡ true
      → s.containers k.c_id ≡ some x
      → x.is_temp ≡ true
      → write_back io i s ≡ some (cleaned io law works s p i b, ok tt)
  unfolding set_frame write_back get_container write_to
  written_temp k x key dirty known temp =
      rw (write_back, key, dirty, get_container, known, write_to, temp, sym key) refl

  written_file :
      (k : ContainerPageId) (x : Container)
      → (key : (s.frames i).key ≡ some k) → (dirty : (s.frames i).is_dirty ≡ true)
      → s.containers k.c_id ≡ some x
      → x.is_temp ≡ false
      → write_back io i s
        ≡ some (
          cleaned io law works
              (written io law works s p i b k key dirty)
              (written-IsPool io law works s p i b k key dirty)
              i
              b,
          ok tt,
        )
  unfolding set_frame write_back get_container write_to write_page
  written_file k x key dirty known temp =
      let its_id = (p.sound i b).2 k key in
      let id_matches : (get_page_id (s.frames i).page == k.page_id) ≡ true =
        ground (arith, its_id.0) in
      rw
        (
          write_back,
          key,
          dirty,
          get_container,
          known,
          write_to,
          temp,
          write_page,
          id_matches,
          works s.disk k.c_id k.page_id (s.frames i).page its_id.1,
          sym key,
        )
        refl

  nothing_empty : (s.frames i).key ≡ none → write_back io i s ≡ some (s, ok tt)
  unfolding write_back
  nothing_empty e = rw (write_back, e) refl

  nothing_clean :
      (k : ContainerPageId)
      → (s.frames i).key ≡ some k
      → (s.frames i).is_dirty ≡ false
      → write_back io i s ≡ some (s, ok tt)
  unfolding write_back
  nothing_clean k e h = rw (write_back, e, h) refl

  -- A dirty frame of a container.
  write_dirty :
      (k : ContainerPageId) (x : Container)
      → (s.frames i).key ≡ some k
      → (s.frames i).is_dirty ≡ true
      → s.containers k.c_id ≡ some x
      → (o : Bool) → x.is_temp ≡ o
      → WrittenBack
  write_dirty k x key dirty known true temp = (
    cleaned io law works s p i b,
    written_temp k x key dirty known temp,
    cleaned_lem io law works s p i b (
      λ e. refl,
      λ clean k' e (x', there, t).
          let same : k ≡ k' = ground (arith, key, e) in
          absurd (ground (arith, known, there, temp, t, same)),
      (p.sound i b).2,
    ),
  )
  write_dirty k x key dirty known false temp =
      let t = written io law works s p i b k key dirty in
      let pt = written-IsPool io law works s p i b k key dirty in
      (
        cleaned io law works t pt i b,
        written_file k x key dirty known temp,
        Cleaned-written io i s t.disk (cleaned io law works t pt i b)
            (written-Keeps io law works s p i b k key dirty)
            (cleaned_lem io law works t pt i b (written-IsSound io law works s p i b k key dirty)),
      )

  pub write_back-Cleaned : WrittenBack
  write_back-Cleaned = go (s.frames i).key refl (s.frames i).is_dirty refl
    where
      go :
          (o : Option ContainerPageId)
          → (s.frames i).key ≡ o
          → (d : Bool) → (s.frames i).is_dirty ≡ d
          → WrittenBack
      go none e d h =
          let clean = (p.sound i b).0 e in
          (s, nothing_empty e, untouched io law works s p i b clean)
      go (some k) e false h = (s, nothing_clean k e h, untouched io law works s p i b h)
      go (some k) e true h =
          let (x, known, counted) = (p.mapped k i (p.keyed k i b e)).2 in
          write_dirty k x e h known x.is_temp refl
