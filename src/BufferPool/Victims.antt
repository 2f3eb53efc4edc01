-- ===== src/BufferPool/Victims.antt =====
-- The choice of a victim among the hints, and the latches that are tried.
use crusty_db.Prelude.{
  ℕ, ◌+◌, ◌%◌, ◌<◌, ◌||◌, ◌==◌, ◌≡◌, ◌≢◌, refl, ap, ◌⊎◌, inl, inr, Bool, true, false, List, [], ◌∷◌,
  none, some, ==_iff, Bool-cases, All, lt→ltb,
}
use crusty_db.Latch.{try_shared, try_exclusive, downgrade, minus_one, i16_mod, is_negative}
use crusty_db.BaseFile.{Disk}
use crusty_db.BufferPool.{BufferFrame, BufferPool, set_frame}
use crusty_db.BufferPool.Frames.{try_read, try_write, latched, make, downgrade_guard}
use crusty_db.BufferPool.Serving.{pop_hints}
use crusty_db.BufferPool.Invariant.{IsPool, Keeps}
use crusty_db.BufferPool.Framing.{set_frame-IsPool, set_frame-Keeps, put_at_self, put_at_other}

-- A latch is taken for writing exactly if nobody holds it.
pub try_write_cases :
    (d : Bool) (f : BufferFrame)
    → ((f.latch ≢ 0) × (try_write d f ≡ none))
      ⊎ ((f.latch ≡ 0)
          × (try_write d f ≡ some (record f { latch = minus_one; is_dirty = d || f.is_dirty })))
unfolding try_write latched make try_exclusive
try_write_cases d f = elim (Bool-cases (f.latch == 0)) [
  | inl e ↦ inr ((==_iff f.latch 0).0 e, rw (try_write, e) refl)
  | inr e ↦ inl (λ h. cc (e, (==_iff f.latch 0).1 h), rw (try_write, e) refl)
]

-- For reading, exactly if nobody writes.
pub try_read_cases :
    (f : BufferFrame)
    → ((is_negative f.latch ≡ true) × (try_read f ≡ none))
      ⊎ ((is_negative f.latch ≡ false)
          × (try_read f ≡ some (record f { latch = (f.latch + 1) % i16_mod })))
unfolding try_read latched try_shared
try_read_cases f = elim (Bool-cases (is_negative f.latch)) [
  | inl e ↦ inl (e, rw (try_read, e) refl)
  | inr e ↦ inr (e, rw (try_read, e) refl)
]

pub downgrade_guard_held :
    (f : BufferFrame) → f.latch ≡ minus_one → downgrade_guard f ≡ some (record f { latch = 1 })
unfolding downgrade_guard latched downgrade
downgrade_guard_held f e = rw e refl

module _ {D : Type 0} (io : Disk D) where
  -- Nothing that a caller sees of the pages changes.
  pub record Retains (s s' : BufferPool D) : Type 0 where
    pub wf : IsPool io s'
    pub keeps : Keeps io s s'
    pub containers : s'.containers ≡ s.containers
    pub num_frames : s'.num_frames ≡ s.num_frames
    pub page_to_frame : s'.page_to_frame ≡ s.page_to_frame

  -- The choice made from `s` in favour of `v`, which ends in `s'`.
  pub record Chosen (s : BufferPool D) (v : ℕ) (s' : BufferPool D) : Type 0 where
    pub retains : Retains s s'
    pub bound : v < s.num_frames
    pub was_free : (s.frames v).latch ≡ 0
    pub latch : (s'.frames v).latch ≡ minus_one
    pub key : (s'.frames v).key ≡ (s.frames v).key
    pub others : (j : ℕ) → j ≢ v → (s'.frames j).latch ≡ (s.frames j).latch

  abbrev pub Choice : BufferPool D → List ℕ → Type 0
  Choice s hints =
      ((s' : BufferPool D) × (pop_hints hints s ≡ some (s', none))
        × Retains s s'
        × (s'.frames ≡ s.frames)
        × All (λ i. (s.frames i).latch ≢ 0) hints)
      ⊎ ((s' : BufferPool D) × (v : ℕ) × (pop_hints hints s ≡ some (s', some v)) × Chosen s v s')

  set_hints-Retains :
      (s : BufferPool D)
      → IsPool io s
      → (hints : List ℕ) → All (λ i. i < s.num_frames) hints
      → Retains s (record s { eviction_hints = hints })
  set_hints-Retains s p hints bounds = record {
    wf = record { mapped = p.mapped; keyed = p.keyed; sound = p.sound; hints = bounds };
    keeps = λ k a r t h. h;
    containers = refl;
    num_frames = refl;
    page_to_frame = refl;
  }

  -- The frame at `v`, latched.
  chosen :
      (s : BufferPool D)
      → IsPool io s
      → (v : ℕ) (rest : List ℕ) → v < s.num_frames
      → All (λ i. i < s.num_frames) rest
      → (s.frames v).latch ≡ 0
      → Chosen s v (
          set_frame v
            (record (s.frames v) { latch = minus_one })
            (record s { eviction_hints = rest }))
  unfolding set_frame
  chosen s p v rest b bounds free =
      let f : BufferFrame = record (s.frames v) { latch = minus_one } in
      let r = set_hints-Retains s p rest bounds in
      let t : BufferPool D = record s { eviction_hints = rest } in
      record {
        retains = record {
          wf = set_frame-IsPool io t r.wf v f refl (p.sound v b);
          keeps = set_frame-Keeps io t r.wf v f refl refl;
          containers = refl;
          num_frames = refl;
          page_to_frame = refl;
        };
        bound = b;
        was_free = free;
        latch = ap (λ (g : BufferFrame). g.latch) (put_at_self s.frames v f);
        key = ap (λ (g : BufferFrame). g.key) (put_at_self s.frames v f);
        others = λ j ne. ap (λ (g : BufferFrame). g.latch) (put_at_other s.frames v j f ne);
      }

  pub pop_hints-Choice :
      (s : BufferPool D)
      → IsPool io s
      → (hints : List ℕ) → All (λ i. i < s.num_frames) hints
      → Choice s hints
  unfolding pop_hints
  pop_hints-Choice s p [] bounds =
      inl (record s { eviction_hints = [] }, refl, set_hints-Retains s p [] tt, refl, tt)
  pop_hints-Choice s p (v ∷ rest) (b, bounds) = elim (try_write_cases false (s.frames v)) [
    | inl (held, e) ↦ elim (pop_hints-Choice s p rest bounds) [
      | inl (s', h, r, same, all) ↦
          inl (s', rw (lt→ltb v s.num_frames b, e) h, r, same, (held, all))
      | inr (s', w, h, c) ↦ inr (s', w, rw (lt→ltb v s.num_frames b, e) h, c)
    ]
    | inr (free, e) ↦ inr (
      set_frame v (record (s.frames v) { latch = minus_one }) (record s { eviction_hints = rest }),
      v,
      rw (lt→ltb v s.num_frames b, e) refl,
      chosen s p v rest b bounds free,
    )
  ]
