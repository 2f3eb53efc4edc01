-- ===== src/BufferPool/Creating.antt =====
-- `create_new_page_for_write` on a disk that works.
use crusty_db.Prelude.{ℕ, ◌+◌, ◌%◌, ◌<◌, ◌≡◌, refl, false, Option, none, some, arith}
use crusty_db.BaseFile.{Disk}
use crusty_db.BufferPool.{ContainerPageId, BufferPool, Container}
use crusty_db.BufferPool.Mapping.{get}
use crusty_db.BufferPool.Catalog.{u32_mod, set_container}
use crusty_db.BufferPool.Invariant.{IsPool, IsRegistered, IsPersistent}
use crusty_db.BufferPool.Framing.{put_at_all, put_at_self}

abbrev pub counted : Container → Container
counted x = record x { page_count = (x.page_count + 1) % u32_mod }

-- The key of the next page.
abbrev pub next_key : ℕ → Container → ContainerPageId
next_key c x = record { c_id = c; page_id = x.page_count }

module _ {D : Type 0} (io : Disk D) (c : ℕ) (x : Container) where
  -- One page more in the container `c`, which has been `x`.
  module _ (s : BufferPool D) (p : IsPool io s) (there : s.containers c ≡ some x)
      (room : x.page_count + 1 < u32_mod) where
    abbrev pub bumped : BufferPool D
    bumped = set_container c (counted x) s

    bumped-IsRegistered : (k : ContainerPageId) → IsRegistered s k → IsRegistered bumped k
    unfolding set_container
    bumped-IsRegistered k (y, e, b) =
        put_at_all
          (λ j o.
            s.containers j ≡ some y
            → (x' : Container) × (o ≡ some x') × (k.page_id < x'.page_count))
          s.containers c (some (counted x))
          (λ h.
            let same : y.page_count ≡ x.page_count = ground (arith, h, there) in
            (counted x, refl, omega (arith, b, room, same)))
          (λ j ne h. (y, h, b)) k.c_id e

    bumped-IsPersistent : (c' : ℕ) → IsPersistent bumped c' → IsPersistent s c'
    unfolding set_container
    bumped-IsPersistent c' (y, e, t) =
        put_at_all (λ j o. o ≡ some y → IsPersistent s j) s.containers c (some (counted x))
          (λ h. (x, there, ground (arith, h, t))) (λ j ne h. (y, h, t)) c' e

    pub IsPersistent-bumped : (c' : ℕ) → IsPersistent s c' → IsPersistent bumped c'
    unfolding set_container
    IsPersistent-bumped c' (y, e, t) =
        put_at_all
          (λ j o. s.containers j ≡ some y → (x' : Container) × (o ≡ some x') × (x'.is_temp ≡ false))
          s.containers c (some (counted x)) (λ h. (counted x, refl, ground (arith, h, there, t)))
          (λ j ne h. (y, h, t)) c' e

    pub next_unmapped : get s.page_to_frame (next_key c x) ≡ none
    next_unmapped = go (get s.page_to_frame (next_key c x)) refl
      where
        go :
            (o : Option ℕ)
            → get s.page_to_frame (next_key c x) ≡ o
            → get s.page_to_frame (next_key c x) ≡ none
        go none e = e
        go (some i) e =
            let (y, known, b) = (p.mapped (next_key c x) i e).2 in
            absurd (ground (arith, known, there, b))

    pub bumped-IsPool : IsPool io bumped
    unfolding set_container
    bumped-IsPool = record {
      mapped =
          λ k i e. let (b, key, known) = p.mapped k i e in (b, key, bumped-IsRegistered k known);
      keyed = p.keyed;
      sound = λ i b.
          let (blank, saved, its_id) = p.sound i b in
          (blank, λ clean k e t. saved clean k e (bumped-IsPersistent k.c_id t), its_id);
      hints = p.hints;
    }

    pub next_IsRegistered : IsRegistered bumped (next_key c x)
    unfolding set_container
    next_IsRegistered =
        (counted x, put_at_self s.containers c (some (counted x)), omega (arith, room))
