-- ===== src/BufferPool/Installing.antt =====
-- The frame of a ready victim, once it has the page of the file.
use crusty_db.Prelude.{
  ℕ, ◌≡◌, refl, sym, ◌∙◌, ap, inl, inr, Bool, Option, none, some, Bool-cases, arith,
}
use crusty_db.Bytes.{Array}
use crusty_db.BaseFile.{Disk}
use crusty_db.BufferPool.{ContainerPageId, BufferPool, same_key}
use crusty_db.BufferPool.Mapping.{get, same_key_iff}
use crusty_db.BufferPool.Invariant.{
  IsPool, IsSound, Keeps, IsRegistered, IsPersistent, Holds, OnDisk, HeldBy,
}
use crusty_db.BufferPool.Placing.{given, given-IsPool, given-Holds, given-Holds_self}
use crusty_db.BufferPool.Faulting.{Ready, loaded}

module _ {D : Type 0} (io : Disk D) (s s₂ : BufferPool D) (k : ContainerPageId) (v : ℕ)
    (ready : Ready io s v s₂) (unmapped : get s.page_to_frame k ≡ none) (known : IsRegistered s k)
    (lasting : IsPersistent s k.c_id) where
  pub still_unmapped : get s₂.page_to_frame k ≡ none
  still_unmapped = rw (ready.retains.page_to_frame) unmapped

  pub still_known : IsRegistered s₂ k
  still_known = let (x, e, counted) = known in (x, rw ready.retains.containers e, counted)

  pub on_disk : (a : Array) → Holds io s k a → OnDisk io s₂.disk k a
  on_disk a h =
      shut (get s₂.page_to_frame k) still_unmapped (ready.retains.keeps k a known lasting h)
    where
      shut : (o : Option ℕ) → o ≡ none → HeldBy io s₂ k a o → OnDisk io s₂.disk k a
      shut none e h = h
      shut (some i) e h = absurd cc

  -- The pool with the page in the frame.
  module _ (a : Array) (holds : Holds io s k a) where
    abbrev pub installed : BufferPool D
    installed = given io s₂ ready.retains.wf v k (loaded s₂ k v a)

    one_content : (a' : Array) → Holds io s k a' → a ≡ a'
    one_content a' h =
        ap (λ (r : Bool × Array). r.1) (sym ((on_disk a holds).0 a) ∙ (on_disk a' h).0 a)

    loaded-IsSound : IsSound io s₂ (loaded s₂ k v a)
    loaded-IsSound = (
      λ e. absurd cc,
      λ clean k' e t. let same : k ≡ k' = ground (arith, e) in rw (sym same) (on_disk a holds),
      λ k' e.
          let same : k ≡ k' = ground (arith, e) in
          let d = on_disk a holds in rw (sym same) (d.1, omega (arith, d.2)),
    )

    pub installed-IsPool : IsPool io installed
    installed-IsPool =
        given-IsPool io s₂ ready.retains.wf v k (loaded s₂ k v a) ready.bound refl still_unmapped
          still_known loaded-IsSound

    pub installed-Keeps : Keeps io s installed
    installed-Keeps k' a' (x, e, counted) (y, there, t) h = elim (Bool-cases (same_key k k')) [
      | inl q ↦
          let same : k ≡ k' = (same_key_iff k k').0 q in
          rw (sym same, sym (one_content a' (rw same h)))
            (given-Holds_self io s₂ ready.retains.wf v k (loaded s₂ k v a))
      | inr q ↦
          given-Holds io s₂ ready.retains.wf v k (loaded s₂ k v a) ready.bound
            ((ready.retains.wf.sound v ready.bound).1 ready.is_clean) k' a'
            (λ same. cc (q, (same_key_iff k k').1 same)) (y, rw ready.retains.containers there, t)
            (ready.retains.keeps k' a' (x, e, counted) (y, there, t) h)
    ]
