-- ===== src/BufferPool/Evicting.antt =====
-- A saved frame that is emptied, with its page's mapping gone.
use crusty_db.Prelude.{
  ℕ, ◌<◌, ◌==◌, ◌≡◌, ◌≢◌, refl, sym, ◌∙◌, ap, inl, inr, false, Option, none, some, arith, ==_iff,
  Bool-cases,
}
use crusty_db.Bytes.{Array}
use crusty_db.BaseFile.{Disk}
use crusty_db.BufferPool.{ContainerPageId, BufferFrame, BufferPool, set_frame}
use crusty_db.BufferPool.Mapping.{get}
use crusty_db.BufferPool.Invariant.{IsPool, IsSaved, IsSound, Keeps, HeldBy, IsRegistered, Holds}
use crusty_db.BufferPool.Framing.{without, put_at_all, put_at_other}
use crusty_db.BufferPool.Placing.{displaced, undisplaced, gone}

module _ {D : Type 0} (io : Disk D) (s : BufferPool D) (p : IsPool io s) (i : ℕ)
    (b : i < s.num_frames) (f : BufferFrame) (empty : f.key ≡ none) where
  abbrev pub evicted : BufferPool D
  evicted = record (set_frame i f s) { page_to_frame = without (s.frames i).key s.page_to_frame }

  evicted_mapped :
      (k : ContainerPageId) (j : ℕ)
      → get evicted.page_to_frame k ≡ some j
      → (j < s.num_frames) × ((evicted.frames j).key ≡ some k) × IsRegistered s k
  unfolding set_frame
  evicted_mapped k j e =
      let (there, other) = displaced io s p i k j (s.frames i).key refl e in
      let (bj, key, r) = p.mapped k j there in
      let ne : j ≢ i = λ same. other (ap (λ x. (s.frames x).key) (sym same) ∙ key) in
      (bj, ap (λ (g : BufferFrame). g.key) (put_at_other s.frames i j f ne) ∙ key, r)

  evicted_keyed :
      (k : ContainerPageId) (j : ℕ)
      → j < s.num_frames
      → (evicted.frames j).key ≡ some k
      → get evicted.page_to_frame k ≡ some j
  unfolding set_frame
  evicted_keyed k j bj h =
      put_at_all
        (λ j' g.
          j' < s.num_frames
          → g.key ≡ some k
          → get (without (s.frames i).key s.page_to_frame) k ≡ some j')
        s.frames i f (λ bi key. absurd (cc (key, empty)))
        (λ j' ne bj' key.
          let there = p.keyed k j' bj' key in
          undisplaced io s p i k (s.frames i).key (λ o. ne (ground (arith, p.keyed k i b o, there)))
          ∙ there)
        j bj h

  pub evicted-IsPool : f.is_dirty ≡ false → IsPool io evicted
  unfolding set_frame
  evicted-IsPool clean = record {
    mapped = evicted_mapped;
    keyed = evicted_keyed;
    sound =
        put_at_all (λ j g. j < s.num_frames → IsSound io s g) s.frames i f
          (λ bi. (λ e. clean, λ c k e. absurd (cc (e, empty)), λ k e. absurd (cc (e, empty))))
          (λ j ne. p.sound j);
    hints = p.hints;
  }

  holds :
      (k : ContainerPageId) (a : Array) (o : Option ℕ)
      → get evicted.page_to_frame k ≡ o
      → HeldBy io evicted k a o
      → Holds io evicted k a
  holds k a o e h = rw e h

  pub evicted-Keeps : IsSaved io s (s.frames i) → Keeps io s evicted
  unfolding set_frame
  evicted-Keeps saved k a r t h = go (get s.page_to_frame k) refl h
    where
      go : (o : Option ℕ) → get s.page_to_frame k ≡ o → HeldBy io s k a o → Holds io evicted k a
      go none e h =
          holds k a none
            (undisplaced io s p i k (s.frames i).key (λ o. cc (p.keyed k i b o, e)) ∙ e) h
      go (some j) e h = elim (Bool-cases (j == i)) [
        | inl q ↦
            let here : j ≡ i = (==_iff j i).0 q in
            let key : (s.frames i).key ≡ some k = cc ((p.mapped k j e).1, here) in
            holds k a none (gone io s p i k (s.frames i).key key) (rw (sym h, here) (saved k key t))
        | inr q ↦
            let away : j ≢ i = λ here. cc (q, (==_iff j i).1 here) in
            holds k a (some j)
              (undisplaced io s p i k (s.frames i).key
                  (λ o. away (ground (arith, p.keyed k i b o, e)))
                ∙ e)
              (ap (λ (g : BufferFrame). g.page) (put_at_other s.frames i j f away) ∙ h)
      ]
