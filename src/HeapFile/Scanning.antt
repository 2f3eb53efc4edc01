-- ===== src/HeapFile/Scanning.antt =====
-- The search of `add_val` for a page with room, on a disk that works, with the pages in memory.
use crusty_db.Prelude.{
  ℕ, ◌≢◌, ◌<◌, ◌≡◌, refl, ◌∙◌, ap, ◌⊎◌, inl, inr, List, [], ◌∷◌, ◌++◌, map, Option, none, some,
  OrPanic, length, All,
}
use crusty_db.Bytes.{Array}
use crusty_db.Ids.{new_slot, ValueId}
use crusty_db.HeapPage.Layout.{layout}
use crusty_db.HeapPage.Wf.{IsWf}
use crusty_db.HeapPage.Reading.{contents}
use crusty_db.HeapPage.Deleting.{Changed}
use crusty_db.HeapPage.Adding.{add_value-Changed, NoSpace}
use crusty_db.BaseFile.{Disk, IsDisk}
use crusty_db.BufferPool.{ContainerPageId, BufferPool, set_frame}
use crusty_db.BufferPool.Mapping.{get}
use crusty_db.BufferPool.Invariant.{IsPool, IsRegistered, IsPersistent, Holds}
use crusty_db.BufferPool.Writing.{Works}
use crusty_db.HeapFile.{key, edit, give_back, add_to_some}
use crusty_db.HeapFile.Guards.{Edited}
use crusty_db.HeapFile.Edits.{returned, Edited-give_back}
use crusty_db.HeapFile.Stored.{Unchanged, write_page-Granted}

module _ {D : Type 0} (io : Disk D) (c : ℕ) where
  -- A page with its content: a well-formed heap page of the container, in a frame that is not
  -- latched.
  pub record IsReady (s : BufferPool D) (page : ℕ × Array) : Type 0 where
    pub known : IsRegistered s (key c page.0)
    pub holds : Holds io s (key c page.0) page.1
    pub wf : IsWf (layout page.1)
    pub frame : (i : ℕ) × (get s.page_to_frame (key c page.0) ≡ some i) × ((s.frames i).latch ≡ 0)

  -- The first page with room takes the value in a slot that had none.
  pub record Fits (s : BufferPool D) (val : List ℕ) (pages : List (ℕ × Array))
      (result : OrPanic (BufferPool D × Option ValueId)) : Type 0 where
    pub before : List (ℕ × Array)
    pub page : ℕ × Array
    pub rest : List (ℕ × Array)
    pub s' : BufferPool D
    pub q : Array
    pub slot : ℕ
    pub splits : pages ≡ before ++ (page ∷ rest)
    pub full : All (λ (e : ℕ × Array). NoSpace e.1 (length val)) before
    pub vacant : contents page.1 slot ≡ none
    pub lowest : (i : ℕ) → i < slot → contents page.1 i ≢ none
    pub room : ¬ NoSpace page.1 (length val)
    pub returns : result ≡ some (s', some (new_slot c page.0 slot))
    pub changed : Changed page.1 q slot (some val)
    pub edited : Edited io s (key c page.0) q s'

  abbrev pub Scanned :
      BufferPool D → List ℕ → List (ℕ × Array) → OrPanic (BufferPool D × Option ValueId) → Type 0
  Scanned s val pages result =
      ((s' : BufferPool D) × (result ≡ some (s', none))
        × All (λ (e : ℕ × Array). NoSpace e.1 (length val)) pages
        × Unchanged io s s')
      ⊎ Fits s val pages result

  -- A page that did not take the value leaves the others ready.
  still-IsReady :
      (s t : BufferPool D)
      → IsPersistent s c
      → Unchanged io s t
      → t.page_to_frame ≡ s.page_to_frame
      → (pages : List (ℕ × Array)) → All (IsReady s) pages
      → All (IsReady t) pages
  still-IsReady s t lasting u e [] _ = tt
  still-IsReady s t lasting (kept, latches) e (page ∷ pages) (r, rs) = (
    (record {
      known = let (x, h, b) = r.known in (x, rw kept.containers h, b);
      holds = kept.keeps (key c page.0) page.1 r.known lasting r.holds;
      wf = r.wf;
      frame = let (i, there, free) = r.frame in (i, rw e there, latches i ∙ free);
    }),
    still-IsReady s t lasting (kept, latches) e pages rs,
  )

  Edited-later :
      (s t u : BufferPool D) (k : ContainerPageId) (q : Array)
      → Unchanged io s t
      → t.page_to_frame ≡ s.page_to_frame
      → Edited io t k q u
      → Edited io s k q u
  Edited-later s t u k q (kept, latches) e d = record {
    wf = d.wf;
    self = d.self;
    others = λ k' a' ne (x, r, counts) (y, there, lasts) h.
        d.others k' a' ne (x, rw kept.containers r, counts) (y, rw kept.containers there, lasts)
          (kept.keeps k' a' (x, r, counts) (y, there, lasts) h);
    latches = λ j. d.latches j ∙ latches j;
    containers = d.containers ∙ kept.containers;
    num_frames = d.num_frames ∙ kept.num_frames;
    mapping = λ j h. d.mapping j (rw e h) ∙ e;
  }

  later :
      (s t : BufferPool D) (val : List ℕ) (page : ℕ × Array) (pages : List (ℕ × Array))
      (result : OrPanic (BufferPool D × Option ValueId))
      → Unchanged io s t
      → t.page_to_frame ≡ s.page_to_frame
      → NoSpace page.1 (length val)
      → Scanned t val pages result
      → Scanned s val (page ∷ pages) result
  later s t val page pages result (kept, latches) e full (inl (s', h, all, (kept', latches'))) =
      inl (
        s',
        h,
        (full, all),
        (
          record {
            wf = kept'.wf;
            keeps = λ k' a' (x, r, counts) (y, there, lasts) h.
                kept'.keeps k' a' (x, rw kept.containers r, counts)
                  (y, rw kept.containers there, lasts)
                  (kept.keeps k' a' (x, r, counts) (y, there, lasts) h);
            containers = kept'.containers ∙ kept.containers;
            num_frames = kept'.num_frames ∙ kept.num_frames;
          },
          λ j. latches' j ∙ latches j,
        ),
      )
  later s t val page pages result u e full (inr f) = inr (record {
    before = page ∷ f.before;
    page = f.page;
    rest = f.rest;
    s' = f.s';
    q = f.q;
    slot = f.slot;
    splits = ap (λ l. page ∷ l) f.splits;
    full = (full, f.full);
    vacant = f.vacant;
    lowest = f.lowest;
    room = f.room;
    returns = f.returns;
    changed = f.changed;
    edited = Edited-later s t f.s' (key c f.page.0) f.q u e f.edited;
  })

module _ {D : Type 0} (io : Disk D) (law : IsDisk io) (works : Works io) (c : ℕ) (val : List ℕ)
    (some_bytes : 0 < length val) where
  -- On a well-formed pool over a disk that works, for a value that is not empty and pages of a
  -- container that is not temporary, each of them a registered, well-formed heap page in a frame
  -- that is not latched: the first page whose free space is larger than the value, with four bytes
  -- more and a gap for them if the page has no deleted slot, takes it in its lowest slot that had no
  -- value, every other slot and page keeping its own; or there is no such page, and nothing changes.
  -- No latch stays taken.
  pub add_to_some-Scanned :
      (pages : List (ℕ × Array)) (s : BufferPool D)
      → IsPool io s
      → IsPersistent s c
      → All (IsReady io c s) pages
      → Scanned io c s val pages (add_to_some io c val (map (λ (e : ℕ × Array). e.0) pages) s)
  unfolding add_to_some give_back set_frame
  add_to_some-Scanned [] s p lasting _ = inl (
    s,
    refl,
    tt,
    (record { wf = p; keeps = λ k a r t h. h; containers = refl; num_frames = refl }, λ j. refl),
  )
  add_to_some-Scanned (page ∷ pages) s p lasting (r, rs) =
      let (s₁, i, e, kept, g) =
        write_page-Granted io law works s p c page.0 page.1 r.known lasting r.holds (inl r.frame)
          r.wf in
      let back = returned io s s₁ (key c page.0) page.1 i kept g in
      elim (add_value-Changed page.1 val r.wf some_bytes) [
        | inl (full, h) ↦
            rw (add_to_some, e, g.page, h)
              (later io c s (give_back i s₁) val page pages _ back (g.mapping r.frame.0 r.frame.1)
                full
                (add_to_some-Scanned pages (give_back i s₁) back.0.wf
                  (let (y, there, t) = lasting in (y, rw back.0.containers there, t))
                  (still-IsReady io c s (give_back i s₁) lasting back
                    (g.mapping r.frame.0 r.frame.1) pages rs)))
        | inr (q, j, vacant, lowest, room, h, changed) ↦ inr (record {
          before = [];
          page = page;
          rest = pages;
          s' = give_back i (edit i q s₁);
          q = q;
          slot = j;
          splits = refl;
          full = tt;
          vacant = vacant;
          lowest = lowest;
          room = room;
          returns = rw (add_to_some, e, g.page, h) refl;
          changed = changed;
          edited = Edited-give_back io s s₁ (key c page.0) page.1 i kept g q changed.front;
        })
      ]
