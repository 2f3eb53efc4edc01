-- ===== src/BufferPool/Framing.antt =====
-- The changes to one frame that keep the invariant and the pages.
use crusty_db.Prelude.{
  ℕ, ◌<◌, ◌==◌, ◌≡◌, ◌≢◌, refl, sym, ◌∙◌, inl, inr, Option, none, some, arith, ==_iff, Bool-cases,
}
use crusty_db.BufferPool.{ContainerPageId, BufferFrame, BufferPool, set_frame, put_at, PageToFrame}
use crusty_db.BufferPool.Mapping.{get, erase}
use crusty_db.BaseFile.{Disk}
use crusty_db.BufferPool.Invariant.{IsPool, IsSound, Keeps, HeldBy}

-- A function changed at `i`, where a property holds of the new value and of the old ones.
pub put_at_all :
    {A : Type 0} (P : ℕ → A → Type 0) (g : ℕ → A) (i : ℕ) (a : A)
    → P i a
    → ((j : ℕ) → j ≢ i → P j (g j))
    → (j : ℕ) → P j (put_at g i a j)
put_at_all P g i a pa pg j = elim (Bool-cases (j == i)) [
  | inl e ↦ rw (e, (==_iff j i).0 e) pa
  | inr e ↦ rw e (pg j (ground (arith, e)))
]

pub put_at_self : {A : Type 0} (g : ℕ → A) (i : ℕ) (a : A) → put_at g i a i ≡ a
put_at_self g i a = ground arith

pub put_at_other : {A : Type 0} (g : ℕ → A) (i j : ℕ) (a : A) → j ≢ i → put_at g i a j ≡ g j
put_at_other g i j a ne = ground arith

-- The map without the key that a frame had.
abbrev pub without : Option ContainerPageId → PageToFrame → PageToFrame
without none m = m
without (some k) m = erase m k

module _ {D : Type 0} (io : Disk D) (s : BufferPool D) (p : IsPool io s) where
  -- A frame that keeps its key.
  module _ (i : ℕ) (f : BufferFrame) (same : f.key ≡ (s.frames i).key) where
    same_keys : (j : ℕ) → (put_at s.frames i f j).key ≡ (s.frames j).key
    same_keys = put_at_all (λ j g. g.key ≡ (s.frames j).key) s.frames i f same (λ j ne. refl)

    pub set_frame-IsPool : IsSound io s f → IsPool io (set_frame i f s)
    unfolding set_frame
    set_frame-IsPool sound = record {
      mapped = λ k j e. let (b, h, r) = p.mapped k j e in (b, same_keys j ∙ h, r);
      keyed = λ k j b h. p.keyed k j b (sym (same_keys j) ∙ h);
      sound = λ j b.
          put_at_all (λ j g. j < s.num_frames → IsSound io s g) s.frames i f (λ b. sound)
            (λ j ne. p.sound j) j b;
      hints = p.hints;
    }

    pub set_frame-Keeps : f.page ≡ (s.frames i).page → Keeps io s (set_frame i f s)
    unfolding set_frame
    set_frame-Keeps page k a r t h = go (get s.page_to_frame k) h
      where
        go : (o : Option ℕ) → HeldBy io s k a o → HeldBy io (set_frame i f s) k a o
        go none h = h
        go (some j) h =
            put_at_all (λ j g. g.page ≡ (s.frames j).page) s.frames i f page (λ j ne. refl) j ∙ h
