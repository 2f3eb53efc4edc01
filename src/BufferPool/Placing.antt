-- ===== src/BufferPool/Placing.antt =====
-- A frame that is given to another page, which was in no frame.
use crusty_db.Prelude.{
  ℕ, ◌<◌, ◌==◌, ◌≡◌, ◌≢◌, refl, sym, ◌∙◌, ap, inl, inr, ◌∷◌, Option, none, some, arith, ==_iff,
  Bool-cases,
}
use crusty_db.BufferPool.{ContainerPageId, BufferFrame, BufferPool, set_frame, same_key}
use crusty_db.BufferPool.Mapping.{get, same_key_iff, same_key_self, get-erase_self, get-erase_ne}
use crusty_db.Bytes.{Array}
use crusty_db.BaseFile.{Disk}
use crusty_db.BufferPool.Invariant.{
  IsPool, IsSaved, IsSound, HeldBy, IsRegistered, IsPersistent, Holds,
}
use crusty_db.BufferPool.Framing.{without, put_at_all, put_at_self, put_at_other}

module _ {D : Type 0} (io : Disk D) (s : BufferPool D) (p : IsPool io s) (i : ℕ) where
  pub displaced :
      (k : ContainerPageId) (j : ℕ) (o : Option ContainerPageId)
      → (s.frames i).key ≡ o
      → get (without o s.page_to_frame) k ≡ some j
      → (get s.page_to_frame k ≡ some j) × (o ≢ some k)
  displaced k j none e h = (h, λ same. cc)
  displaced k j (some k₀) e h = elim (Bool-cases (same_key k₀ k)) [
    | inl t ↦ absurd (ground (arith, h, get-erase_self s.page_to_frame k₀, (same_key_iff k₀ k).0 t))
    | inr t ↦
        let ne : k₀ ≢ k = λ same. cc (t, (same_key_iff k₀ k).1 same) in
        (sym (get-erase_ne s.page_to_frame k₀ k ne) ∙ h, λ same. ground (arith, ne, same))
  ]

  pub undisplaced :
      (k : ContainerPageId) (o : Option ContainerPageId)
      → o ≢ some k
      → get (without o s.page_to_frame) k ≡ get s.page_to_frame k
  undisplaced k none ne = refl
  undisplaced k (some k₀) ne = get-erase_ne s.page_to_frame k₀ k (λ same. ne (ap some same))

  pub gone :
      (k : ContainerPageId) (o : Option ContainerPageId)
      → o ≡ some k
      → get (without o s.page_to_frame) k ≡ none
  gone k o e = rw e (get-erase_self s.page_to_frame k)

  module _ (k : ContainerPageId) (f : BufferFrame) where
    -- The pool after the change.
    abbrev pub given : BufferPool D
    given = record (set_frame i f s) {
      page_to_frame = (k, i) ∷ without (s.frames i).key s.page_to_frame;
    }

    pub get_self : get given.page_to_frame k ≡ some i
    unfolding get set_frame
    get_self = rw (same_key_self k) refl

    get_other :
        (k' : ContainerPageId)
        → k ≢ k'
        → get given.page_to_frame k' ≡ get (without (s.frames i).key s.page_to_frame) k'
    unfolding get set_frame
    get_other k' ne = ground (arith, same_key_iff k k', ne)

    key_of : f.key ≡ some k → (given.frames i).key ≡ some k
    unfolding set_frame
    key_of key = ap (λ (g : BufferFrame). g.key) (put_at_self s.frames i f) ∙ key

    -- What the other frames hold is where it was.
    stays :
        (k' : ContainerPageId) (j : ℕ)
        → k ≢ k'
        → get given.page_to_frame k' ≡ some j
        → (get s.page_to_frame k' ≡ some j) × (j ≢ i)
    stays k' j ne e =
        let (there, other) = displaced k' j (s.frames i).key refl (sym (get_other k' ne) ∙ e) in
        (there, λ same. other (ap (λ x. (s.frames x).key) (sym same) ∙ (p.mapped k' j there).1))

    given_mapped :
        i < s.num_frames
        → f.key ≡ some k
        → IsRegistered s k
        → (k' : ContainerPageId) (j : ℕ) → get given.page_to_frame k' ≡ some j
        → (j < s.num_frames) × ((given.frames j).key ≡ some k') × IsRegistered s k'
    unfolding set_frame
    given_mapped b key known k' j e = elim (Bool-cases (same_key k k')) [
      | inl t ↦
          let same : k ≡ k' = (same_key_iff k k').0 t in
          let here : i ≡ j = cc (get_self, e, same) in
          rw (sym same, sym here) (b, key_of key, known)
      | inr t ↦
          let (there, ne) = stays k' j (λ same. cc (t, (same_key_iff k k').1 same)) e in
          let (bj, kj, r) = p.mapped k' j there in
          (bj, ap (λ (g : BufferFrame). g.key) (put_at_other s.frames i j f ne) ∙ kj, r)
    ]

    given_keyed :
        i < s.num_frames
        → f.key ≡ some k
        → get s.page_to_frame k ≡ none
        → (k' : ContainerPageId) (j : ℕ) → j < s.num_frames
        → (given.frames j).key ≡ some k'
        → get given.page_to_frame k' ≡ some j
    unfolding set_frame
    given_keyed bi key unmapped k' j b h = elim (Bool-cases (j == i)) [
      | inl t ↦
          let here : j ≡ i = (==_iff j i).0 t in
          let same : k ≡ k' = cc (key_of key, h, here) in rw (sym same, here) get_self
      | inr t ↦
          let ne : j ≢ i = λ here. cc (t, (==_iff j i).1 here) in
          let there =
            p.keyed k' j b
              (sym (ap (λ (g : BufferFrame). g.key) (put_at_other s.frames i j f ne)) ∙ h) in
          get_other k' (λ same. cc (unmapped, there, same))
          ∙ undisplaced k' (s.frames i).key (λ o. ne (cc (p.keyed k' i bi o, there)))
          ∙ there
    ]

    pub given-IsPool :
        i < s.num_frames
        → f.key ≡ some k
        → get s.page_to_frame k ≡ none
        → IsRegistered s k
        → IsSound io s f
        → IsPool io given
    unfolding set_frame
    given-IsPool b key unmapped known sound = record {
      mapped = given_mapped b key known;
      keyed = given_keyed b key unmapped;
      sound = λ j bj.
          put_at_all (λ j g. j < s.num_frames → IsSound io s g) s.frames i f (λ b. sound)
            (λ j ne. p.sound j) j bj;
      hints = p.hints;
    }

    holds :
        (k' : ContainerPageId) (a : Array) (o : Option ℕ)
        → get given.page_to_frame k' ≡ o
        → HeldBy io given k' a o
        → Holds io given k' a
    holds k' a o e h = rw e h

    -- Every other page holds what it held.
    pub given-Holds :
        i < s.num_frames
        → IsSaved io s (s.frames i)
        → (k' : ContainerPageId) (a : Array) → k ≢ k'
        → IsPersistent s k'.c_id
        → Holds io s k' a
        → Holds io given k' a
    unfolding set_frame
    given-Holds b saved k' a ne t h = go (get s.page_to_frame k') refl h
      where
        go : (o : Option ℕ) → get s.page_to_frame k' ≡ o → HeldBy io s k' a o → Holds io given k' a
        go none e h =
            holds k' a none
              (get_other k' ne
                ∙ undisplaced k' (s.frames i).key (λ o. cc (p.keyed k' i b o, e))
                ∙ e)
              h
        go (some j) e h = elim (Bool-cases (j == i)) [
          | inl t' ↦
              let here : j ≡ i = (==_iff j i).0 t' in
              let key : (s.frames i).key ≡ some k' = cc ((p.mapped k' j e).1, here) in
              holds k' a none (get_other k' ne ∙ gone k' (s.frames i).key key)
                (rw (sym h, here) (saved k' key t))
          | inr t' ↦
              let away : j ≢ i = λ here. cc (t', (==_iff j i).1 here) in
              holds k' a (some j)
                (get_other k' ne
                  ∙ undisplaced k' (s.frames i).key
                      (λ o. away (ground (arith, p.keyed k' i b o, e)))
                  ∙ e)
                (ap (λ (g : BufferFrame). g.page) (put_at_other s.frames i j f away) ∙ h)
        ]

    pub given-Holds_self : Holds io given k f.page
    unfolding set_frame
    given-Holds_self =
        holds k f.page (some i) get_self
          (ap (λ (g : BufferFrame). g.page) (put_at_self s.frames i f))
