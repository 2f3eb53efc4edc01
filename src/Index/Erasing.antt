-- ===== src/Index/Erasing.antt =====
-- Which entries of a leaf's page `delete` finds.
use Prim.Native.Nat.{Ordering}
use crusty_db.Prelude.{
  ℕ, zero, suc, ◌+◌, ◌-◌, OrPanic, ◌≡◌, refl, sym, ◌∙◌, ap, Bool, true, false, ◌&&◌, ◌||◌, List, [],
  ◌∷◌, ◌++◌, Option, none, some, inl, inr, Bool-cases, arith,
}
use crusty_db.Bytes.{Array}
use crusty_db.Ids.{ValueId}
use crusty_db.Order.{is_le, insert_by, sort_by}
use crusty_db.Order.Slices.{same_slices}
use crusty_db.MemStore.{same_id}
use mathlib.Core.Path.{subst}
use crusty_db.HeapPage.Iter.{next, next_from}
use mathlib.Core.Option.{some-injective}
use crusty_db.HeapPage.Header.{get_num_slots}
use crusty_db.HeapPage.Values.{get_value}
use crusty_db.Query.{Outcome, ok, err, panicked}
use crusty_db.Index.{NodeEntry, meta, internal, leaf, LeafEntries, decoded, leaf_from, rids_of}
use crusty_db.Index.Delete.{find_slot}

abbrev pub result_or : {A : Type 0} → A → Outcome A → A
result_or d (ok a) = a
result_or d _ = d

-- What the iterator yields is the value in its slot.
abbrev Yields : Array → ℕ → ℕ → List ℕ → ℕ → ℕ → Type 0
Yields p n c bytes slot c' = next_from p n c ≡ some (some (bytes, slot), c')

value_or_rest :
    (p : Array) (n c : ℕ) (bytes : List ℕ) (slot c' : ℕ) (v : OrPanic (Option (List ℕ)))
    → get_value p c ≡ v
    → Yields p (suc n) c bytes slot c'
    → (Yields p n (c + 1) bytes slot c' → get_value p slot ≡ some (some bytes))
    → get_value p slot ≡ some (some bytes)
unfolding next_from
value_or_rest p n c bytes slot c' none g h rest =
    let step : next_from p (suc n) c ≡ none = rw g refl in absurd (cc (sym step ∙ h))
value_or_rest p n c bytes slot c' (some none) g h rest =
    let step : next_from p (suc n) c ≡ next_from p n (c + 1) = rw g refl in rest (sym step ∙ h)
value_or_rest p n c bytes slot c' (some (some b)) g h rest =
    let step : next_from p (suc n) c ≡ some (some (b, c), c + 1) = rw g refl in
    let item : some (b, c) ≡ some (bytes, slot) =
      ap (λ x. x.0) (some-injective _ _ (sym step ∙ h)) in
    subst (λ (x : List ℕ × ℕ). get_value p x.1 ≡ some (some x.0)) (some-injective _ _ item) g

next_from-value :
    (p : Array) (n c : ℕ) (bytes : List ℕ) (slot c' : ℕ)
    → Yields p n c bytes slot c'
    → get_value p slot ≡ some (some bytes)
unfolding next_from
next_from-value p zero c bytes slot c' h = absurd (cc (ap (λ x. x.0) (some-injective _ _ h)))
next_from-value p (suc n) c bytes slot c' h =
    value_or_rest p n c bytes slot c' (get_value p c) refl h
      (next_from-value p n (c + 1) bytes slot c')

module _ {T : Type 0} (cmp : T → T → Ordering) (same : T → T → Bool)
    (decode : List ℕ → Option (NodeEntry T)) (key : List T) (rid : ValueId) where
  -- Whether an entry is the one to delete, and whether it is among others.
  abbrev pub is_entry : List T × ValueId → Bool
  is_entry (k, r) = same_slices same k key && same_id r rid

  abbrev pub has_entry : List (List T × ValueId) → Bool
  has_entry [] = false
  has_entry (e ∷ es) = is_entry e || has_entry es

  pub has_entry-append :
      (xs ys : List (List T × ValueId)) → has_entry (xs ++ ys) ≡ (has_entry xs || has_entry ys)
  has_entry-append [] ys = refl
  has_entry-append (x ∷ xs) ys = ground (arith, has_entry-append xs ys)

  has_entry-insert_by :
      (c : List T × ValueId → List T × ValueId → Ordering) (x : List T × ValueId)
      (xs : List (List T × ValueId))
      → has_entry (insert_by c x xs) ≡ (is_entry x || has_entry xs)
  unfolding insert_by
  has_entry-insert_by c x [] = refl
  has_entry-insert_by c x (y ∷ ys) = elim (Bool-cases (is_le (c x y))) [
    | inl e ↦ rw e refl
    | inr e ↦ rw e (ground (arith, has_entry-insert_by c x ys))
  ]

  pub has_entry-sort_by :
      (c : List T × ValueId → List T × ValueId → Ordering) (xs : List (List T × ValueId))
      → has_entry (sort_by c xs) ≡ has_entry xs
  unfolding sort_by
  has_entry-sort_by c [] = refl
  has_entry-sort_by c (x ∷ xs) =
      has_entry-insert_by c x (sort_by c xs) ∙ ap (λ b. is_entry x || b) (has_entry-sort_by c xs)

  -- Where the ids of the entries with the key are none, the entry is not there.
  pub without-has_entry :
      (es : List (List T × ValueId)) → rids_of cmp same decode key es ≡ [] → has_entry es ≡ false
  unfolding rids_of
  without-has_entry [] h = refl
  without-has_entry ((k, r) ∷ es) h = ground (arith, h, without-has_entry es)

  -- A slot that is found has such an entry.
  abbrev pub Found : Array → Option ℕ → Type 0
  Found page none = Unit
  Found page (some slot) =
      (bytes : List ℕ) × (k : List T) × (r : ValueId) × ((get_value page slot ≡ some (some bytes))
        × ((decoded cmp same decode bytes ≡ ok (leaf k r)) × (is_entry (k, r) ≡ true)))

  abbrev pub is_found : Option ℕ → Bool
  is_found none = false
  is_found (some slot) = true

  module _ (fetch : ℕ → Outcome Array) (slots : ℕ) where
    pub record Agrees (fuel : ℕ) (page : Array) (current : ℕ) (r r' : LeafEntries T) : Type 0 where
      pub found : Option ℕ
      pub finds : find_slot cmp same decode fetch slots key rid fuel page current ≡ ok found
      pub at : Found page found
      pub among : has_entry r'.entries ≡ (has_entry r.entries || is_found found)

    skips :
        (fuel : ℕ) (page : Array) (current : ℕ) (r r' : LeafEntries T) (bytes : List ℕ) (slot : ℕ)
        (current' : ℕ) (e : NodeEntry T)
        → next page current ≡ some (some (bytes, slot), current')
        → decoded cmp same decode bytes ≡ ok e
        → leaf_from cmp same decode (suc fuel) page current r ≡ ok r'
        → ((r₁ : LeafEntries T)
            → leaf_from cmp same decode fuel page current' r₁ ≡ ok r'
            → Agrees fuel page current' r₁ r')
        → Agrees (suc fuel) page current r r'
    unfolding leaf_from find_slot next
    skips fuel page current r r' bytes slot current' (meta l a b) n d h rec =
        let r₁ : LeafEntries T = record r { left_sibling = a; right_sibling = b } in
        let step : leaf_from cmp same decode (suc fuel) page current r
            ≡ leaf_from cmp same decode fuel page current' r₁ =
          rw (n, d) refl in
        let i = rec r₁ (sym step ∙ h) in
        record { found = i.found; finds = rw (n, d) i.finds; at = i.at; among = i.among }
    skips fuel page current r r' bytes slot current' (internal k c) n d h rec =
        let step : leaf_from cmp same decode (suc fuel) page current r ≡ err = rw (n, d) refl in
        absurd (cc (sym step ∙ h))
    skips fuel page current r r' bytes slot current' (leaf k v) n d h rec =
        let r₁ : LeafEntries T = record r { entries = r.entries ++ ((k, v) ∷ []) } in
        let step : leaf_from cmp same decode (suc fuel) page current r
            ≡ leaf_from cmp same decode fuel page current' r₁ =
          rw (n, d) refl in
        let i = rec r₁ (sym step ∙ h) in
        let old = has_entry-append r.entries ((k, v) ∷ []) in
        elim (Bool-cases (same_slices same k key && same_id v rid)) [
          | inl e ↦ record {
            found = some slot;
            finds =
                rw (n, d)
                  (ap
                    (λ (b : Bool). elim b as (λ w. Outcome (Option ℕ)) [
                      | true ↦ ok (some slot)
                      | false ↦ find_slot cmp same decode fetch slots key rid fuel page current'
                    ])
                    e);
            at = (
              bytes,
              k,
              v,
              (
                next_from-value page (get_num_slots page - current) current bytes slot current' n,
                (d, e),
              ),
            );
            among = ground (arith, e, old, i.among);
          }
          | inr e ↦ record {
            found = i.found;
            finds =
                rw (n, d)
                  ((ap
                      (λ (b : Bool). elim b as (λ w. Outcome (Option ℕ)) [
                        | true ↦ ok (some slot)
                        | false ↦ find_slot cmp same decode fetch slots key rid fuel page current'
                      ])
                      e)
                    ∙ i.finds);
            at = i.at;
            among = ground (arith, e, old, i.among);
          }
        ]

    decoded_or_error :
        (fuel : ℕ) (page : Array) (current : ℕ) (r r' : LeafEntries T) (bytes : List ℕ) (slot : ℕ)
        (current' : ℕ) (o : Outcome (NodeEntry T))
        → decoded cmp same decode bytes ≡ o
        → next page current ≡ some (some (bytes, slot), current')
        → leaf_from cmp same decode (suc fuel) page current r ≡ ok r'
        → ((r₁ : LeafEntries T)
            → leaf_from cmp same decode fuel page current' r₁ ≡ ok r'
            → Agrees fuel page current' r₁ r')
        → Agrees (suc fuel) page current r r'
    unfolding leaf_from
    decoded_or_error fuel page current r r' bytes slot current' (ok e) d n h rec =
        skips fuel page current r r' bytes slot current' e n d h rec
    decoded_or_error fuel page current r r' bytes slot current' err d n h rec =
        let step : leaf_from cmp same decode (suc fuel) page current r ≡ err = rw (n, d) refl in
        absurd (cc (sym step ∙ h))
    decoded_or_error fuel page current r r' bytes slot current' panicked d n h rec =
        let step : leaf_from cmp same decode (suc fuel) page current r ≡ panicked =
          rw (n, d) refl in
        absurd (cc (sym step ∙ h))

    -- The next item, if there is one, and then the rest of the page.
    item_or_end :
        (fuel : ℕ) (page : Array) (current : ℕ) (r r' : LeafEntries T)
        (x : OrPanic (Option (List ℕ × ℕ) × ℕ))
        → next page current ≡ x
        → leaf_from cmp same decode (suc fuel) page current r ≡ ok r'
        → ((current' : ℕ) (r₁ : LeafEntries T)
            → leaf_from cmp same decode fuel page current' r₁ ≡ ok r'
            → Agrees fuel page current' r₁ r')
        → Agrees (suc fuel) page current r r'
    unfolding leaf_from find_slot
    item_or_end fuel page current r r' none n h rec =
        let step : leaf_from cmp same decode (suc fuel) page current r ≡ panicked = rw n refl in
        absurd (cc (sym step ∙ h))
    item_or_end fuel page current r r' (some (none, current')) n h rec =
        let step : leaf_from cmp same decode (suc fuel) page current r ≡ ok r = rw n refl in
        let done : r ≡ r' = ap (result_or r) (sym step ∙ h) in
        record { found = none; finds = rw n refl; at = tt; among = rw (sym done) (ground arith) }
    item_or_end fuel page current r r' (some (some (bytes, slot), current')) n h rec =
        decoded_or_error fuel page current r r' bytes slot current' (decoded cmp same decode bytes)
          refl n h (rec current')

    pub agrees :
        (fuel : ℕ) (page : Array) (current : ℕ) (r r' : LeafEntries T)
        → leaf_from cmp same decode fuel page current r ≡ ok r'
        → Agrees fuel page current r r'
    unfolding leaf_from
    agrees zero page current r r' h = absurd (cc h)
    agrees (suc fuel) page current r r' h =
        item_or_end fuel page current r r' (next page current) refl h
          (λ current' r₁ h'. agrees fuel page current' r₁ r' h')
