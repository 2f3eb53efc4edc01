-- ===== src/Index/Lookup.antt =====
-- The search of a chain of leaves, against all of its entries.
use Prim.Native.Nat.{Ordering}
use mathlib.Core.List.{append-nil}
use mathlib.Core.Path.{subst}
use crusty_db.Prelude.{
  ℕ, ◌<◌, ◌≡◌, refl, sym, ◌∙◌, ap, Bool, List, [], ◌∷◌, ◌++◌, Option, some, inl, inr, Bool-cases,
  length,
}
use crusty_db.Bytes.{Array}
use crusty_db.Ids.{ValueId}
use crusty_db.Order.{IsOrder}
use crusty_db.Order.Slices.{Decides, same_slices}
use crusty_db.Query.{Outcome}
use crusty_db.Index.{NodeEntry, ends_with, rids_of, last}
use crusty_db.Index.Runs.{
  Leaf, unwind, entries_of, first_id, LinkedLeft, LinkedRight, StopsRight, without-ReadsAll, walk,
  Start, entries-unwind,
}
use crusty_db.Index.Ordered.{
  AllAtMost, AllAbove, Ascending, at_most-append, Ascending-append, above-rids, below-rids,
}

-- A leaf that a split made has an entry.
abbrev pub Filled : {T : Type 0} → List (Leaf T) → Type 0
Filled [] = Unit
Filled (x ∷ xs) = (¬ (x.entries ≡ [])) × Filled xs

last-append :
    {A : Type 0} (xs ys : List A)
    → ¬ (ys ≡ [])
    → (e : A) × ((last (xs ++ ys) ≡ some e) × (last ys ≡ some e))
last-append [] [] h = absurd (h refl)
last-append [] (y ∷ []) h = (y, (refl, refl))
last-append [] (y ∷ z ∷ zs) h =
    let (e, (p, q)) = last-append [] (z ∷ zs) (λ k. absurd cc) in (e, (p, q))
last-append (x ∷ []) [] h = absurd (h refl)
last-append (x ∷ []) (y ∷ ys) h = last-append [] (y ∷ ys) h
last-append (x ∷ z ∷ xs) ys h = last-append (z ∷ xs) ys h

module _ {T : Type 0} (cmp : T → T → Ordering) (same : T → T → Bool)
    (decode : List ℕ → Option (NodeEntry T)) (fetch : ℕ → Outcome Array) (slots : ℕ)
    (o : IsOrder cmp) (eq : Decides same) (anti : (a b : T) → cmp a b ≡ Ordering.eq → a ≡ b)
    (key : List T) where
  ends_with-last :
      (es : List (List T × ValueId)) (e : List T × ValueId)
      → last es ≡ some e
      → ends_with cmp same decode key es ≡ same_slices same e.0 key
  unfolding ends_with
  ends_with-last es e h = rw (ends_with, h) refl

  stops :
      (before : List (Leaf T))
      → Filled before
      → Ascending cmp (entries_of (unwind before []))
      → AllAtMost cmp (entries_of (unwind before [])) key
      → StopsRight cmp same decode fetch slots key before
  stops [] filled asc most = tt
  stops (b ∷ before) (full, filled) asc most =
      let es : List (List T × ValueId) = entries_of (unwind before []) in
      let split : entries_of (unwind (b ∷ before) []) ≡ es ++ b.entries =
        entries-unwind before (b ∷ []) ∙ ap (λ l. es ++ l) (append-nil b.entries) in
      let asc' : Ascending cmp (es ++ b.entries) = subst (λ l. Ascending cmp l) split asc in
      let most' : AllAtMost cmp (es ++ b.entries) key =
        subst (λ l. AllAtMost cmp l key) split most in
      let (e0, (at, own)) = last-append es b.entries full in
      elim (Bool-cases (ends_with cmp same decode key b.entries)) [
        | inl e ↦ inl (
          e,
          stops before filled (Ascending-append cmp es b.entries asc')
              (at_most-append cmp es b.entries key most'),
        )
        | inr e ↦ inr (
          e,
          ap (rids_of cmp same decode key) split
              ∙ below-rids cmp same decode o eq anti (es ++ b.entries) key e0 asc' most' at
                  (sym (ends_with-last b.entries e0 own) ∙ e),
        )
      ]

  -- From wherever a search lands with no key on the left above the one looked for, and none on the
  -- right at most it.
  pub Start-from :
      (fuel : ℕ) (before : List (Leaf T)) (x : Leaf T) (after : List (Leaf T))
      → length before < fuel
      → LinkedLeft cmp same decode fetch slots (x ∷ before) (first_id after)
      → LinkedRight cmp same decode fetch slots (some x.id) after
      → Filled before
      → Ascending cmp (entries_of (unwind before []))
      → AllAtMost cmp (entries_of (unwind before [])) key
      → AllAbove cmp (entries_of after) key
      → Start cmp same decode fetch slots key fuel x.id (unwind before (x ∷ after))
  Start-from fuel before x after n left right filled asc most above =
      let gone = above-rids cmp same decode o eq anti (entries_of after) key above in
      walk cmp same decode fetch slots key fuel before x after n left right
        (stops before filled asc most)
        (
          elim (Bool-cases (ends_with cmp same decode key x.entries)) [
            | inl e ↦ inl e
            | inr e ↦ inr (e, gone)
          ],
          without-ReadsAll cmp same decode fetch slots key after gone,
        )
