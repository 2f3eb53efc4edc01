-- ===== src/Index/Deletion.antt =====
-- The entry that `delete` finds along the chain of leaves.
use Prim.Native.Nat.{Ordering}
use mathlib.Core.Path.{subst}
use crusty_db.Prelude.{
  ℕ, zero, suc, ◌<◌, ◌≡◌, refl, sym, ◌∙◌, ap, Bool, true, false, ◌||◌, List, [], ◌∷◌, Option, none,
  some, inl, inr, arith, length,
}
use crusty_db.Bytes.{Array}
use crusty_db.Ids.{ValueId}
use crusty_db.Query.{Outcome, ok, split_first}
use crusty_db.Index.{
  NodeEntry, LeafEntries, leaf_from, read_leaf_entries, compare_entries, rids_of, ends_with,
}
use crusty_db.Index.Search.{read_leaf}
use crusty_db.Index.Delete.{find_slot, delete_from}
use crusty_db.Index.Runs.{
  Leaf, entries_of, first_id, IsLeaf, LinkedRight, ReadsAll, Start, unwind, length-unwind,
  entries-unwind,
}
use crusty_db.Index.Erasing.{
  has_entry, has_entry-append, has_entry-sort_by, without-has_entry, Found, is_found, agrees,
  result_or,
}

abbrev empty_leaf : {T : Type 0} → LeafEntries T
empty_leaf = record { left_sibling = none; right_sibling = none; entries = [] }

module _ {T : Type 0} (cmp : T → T → Ordering) (same : T → T → Bool)
    (decode : List ℕ → Option (NodeEntry T)) (fetch : ℕ → Outcome Array) (slots : ℕ) (key : List T)
    (rid : ValueId) where
  abbrev has : List (List T × ValueId) → Bool
  has es = has_entry cmp same decode key rid es

  -- What `delete` sees of a leaf.
  record AtLeaf (x : Leaf T) (entries : LeafEntries T) : Type 0 where
    page : Array
    here : fetch x.id ≡ ok page
    reads : read_leaf_entries cmp same decode slots page ≡ ok entries
    found : Option ℕ
    finds : find_slot cmp same decode fetch slots key rid slots page 0 ≡ ok found
    at : Found cmp same decode key rid page found
    among : has x.entries ≡ is_found cmp same decode key rid found

  at_leaf :
      (left : Option ℕ) (x : Leaf T) (right : Option ℕ)
      → IsLeaf cmp same decode fetch slots left x right
      → AtLeaf x (record { left_sibling = left; right_sibling = right; entries = x.entries })
  unfolding read_leaf read_leaf_entries
  at_leaf left x right h =
      let (page, here, reads) =
        split_first (fetch x.id) (read_leaf_entries cmp same decode slots) h in
      let (r, run, sorted) =
        split_first (leaf_from cmp same decode slots page 0 empty_leaf) (λ r. ok _) reads in
      let a = agrees cmp same decode key rid fetch slots slots page 0 empty_leaf r run in
      let entries = ap (λ o. (result_or empty_leaf o).entries) sorted in
      record {
        page = page;
        here = here;
        reads = reads;
        found = a.found;
        finds = a.finds;
        at = a.at;
        among =
            ap has (sym entries)
            ∙ has_entry-sort_by cmp same decode key rid (compare_entries cmp same decode) r.entries
            ∙ a.among;
      }

  -- The page and the slot where `delete_value` is called hold the entry.
  abbrev pub Target : Option (ℕ × ℕ) → Type 0
  Target none = Unit
  Target (some (page_id, slot)) =
      (page : Array) × (fetch page_id ≡ ok page) × Found cmp same decode key rid page (some slot)

  abbrev pub has_target : Option (ℕ × ℕ) → Bool
  has_target none = false
  has_target (some place) = true

  pub record Deletes (rounds : ℕ) (first : ℕ) (es : List (List T × ValueId)) : Type 0 where
    pub place : Option (ℕ × ℕ)
    pub finds : delete_from cmp same decode fetch slots key rid rounds first ≡ ok place
    pub at : Target place
    pub among : has es ≡ has_target place

  none_else :
      (x : Leaf T) (xs : List (Leaf T))
      → has x.entries ≡ false
      → has (entries_of (x ∷ xs)) ≡ has (entries_of xs)
  none_else x xs h =
      has_entry-append cmp same decode key rid x.entries (entries_of xs)
      ∙ ap (λ b. b || has (entries_of xs)) h

  -- The step at a leaf with the entry, and at one without it.
  take_here :
      (fuel : ℕ) (left : Option ℕ) (x : Leaf T) (xs : List (Leaf T)) (slot : ℕ)
      (a : AtLeaf x
        (record { left_sibling = left; right_sibling = first_id xs; entries = x.entries }))
      → a.found ≡ some slot
      → Deletes (suc fuel) x.id (entries_of (x ∷ xs))
  unfolding delete_from
  take_here fuel left x xs slot a q = record {
    place = some (x.id, slot);
    finds = rw (a.here, a.finds, q, a.reads) refl;
    at = (a.page, a.here, subst (Found cmp same decode key rid a.page) q a.at);
    among =
        has_entry-append cmp same decode key rid x.entries (entries_of xs)
        ∙ ap (λ b. b || has (entries_of xs)) (a.among ∙ ap (is_found cmp same decode key rid) q);
  }

  pass_on :
      (fuel : ℕ) (left : Option ℕ) (x : Leaf T) (xs : List (Leaf T))
      (a : AtLeaf x
        (record { left_sibling = left; right_sibling = first_id xs; entries = x.entries }))
      → a.found ≡ none
      → delete_from cmp same decode fetch slots key rid (suc fuel) x.id
        ≡ (elim (ends_with cmp same decode key x.entries) as (λ w. Outcome (Option (ℕ × ℕ))) [
          | false ↦ ok none
          | true ↦ elim (first_id xs) as (λ w. Outcome (Option (ℕ × ℕ))) [
            | none ↦ ok none
            | some next_id ↦ delete_from cmp same decode fetch slots key rid fuel next_id
          ]
        ])
  unfolding delete_from
  pass_on fuel left x xs a q = rw (a.here, a.finds, q, a.reads) refl

  -- From the first of some leaves on.
  abbrev pub DeletesFrom : ℕ → List (Leaf T) → Type 0
  DeletesFrom fuel [] = Unit
  DeletesFrom fuel (x ∷ xs) = Deletes fuel x.id (entries_of (x ∷ xs))

  no_entry :
      (x : Leaf T) (entries : LeafEntries T) (a : AtLeaf x entries)
      → a.found ≡ none
      → has x.entries ≡ false
  no_entry x entries a q = a.among ∙ ap (is_found cmp same decode key rid) q

  -- The run ends at a leaf, or goes on.
  run_ends :
      (fuel : ℕ) (left : Option ℕ) (x : Leaf T) (xs : List (Leaf T))
      (a : AtLeaf x
        (record { left_sibling = left; right_sibling = first_id xs; entries = x.entries }))
      → a.found ≡ none
      → ends_with cmp same decode key x.entries ≡ false
      → rids_of cmp same decode key (entries_of xs) ≡ []
      → Deletes (suc fuel) x.id (entries_of (x ∷ xs))
  run_ends fuel left x xs a q e gone = record {
    place = none;
    finds = pass_on fuel left x xs a q ∙ rw e refl;
    at = tt;
    among =
        none_else x xs (no_entry x _ a q)
        ∙ without-has_entry cmp same decode key rid (entries_of xs) gone;
  }

  run_goes_on :
      (fuel : ℕ) (left : Option ℕ) (x : Leaf T) (xs : List (Leaf T))
      (a : AtLeaf x
        (record { left_sibling = left; right_sibling = first_id xs; entries = x.entries }))
      → a.found ≡ none
      → ends_with cmp same decode key x.entries ≡ true
      → DeletesFrom fuel xs
      → Deletes (suc fuel) x.id (entries_of (x ∷ xs))
  run_goes_on fuel left x [] a q e rest = record {
    place = none;
    finds = pass_on fuel left x [] a q ∙ rw e refl;
    at = tt;
    among = none_else x [] (no_entry x _ a q);
  }
  run_goes_on fuel left x (y ∷ ys) a q e rest = record {
    place = rest.place;
    finds = pass_on fuel left x (y ∷ ys) a q ∙ rw e rest.finds;
    at = rest.at;
    among = none_else x (y ∷ ys) (no_entry x _ a q) ∙ rest.among;
  }

  here_or_later :
      (fuel : ℕ) (left : Option ℕ) (x : Leaf T) (xs : List (Leaf T))
      (a : AtLeaf x
        (record { left_sibling = left; right_sibling = first_id xs; entries = x.entries }))
      (found : Option ℕ)
      → a.found ≡ found
      → ReadsAll cmp same decode fetch slots key (x ∷ xs)
      → DeletesFrom fuel xs
      → Deletes (suc fuel) x.id (entries_of (x ∷ xs))
  here_or_later fuel left x xs a (some slot) q reads rest = take_here fuel left x xs slot a q
  here_or_later fuel left x xs a none q (inl e, reads) rest = run_goes_on fuel left x xs a q e rest
  here_or_later fuel left x xs a none q (inr (e, gone), reads) rest =
      run_ends fuel left x xs a q e gone

  deletes_from :
      (fuel : ℕ) (left : Option ℕ) (xs : List (Leaf T))
      → length xs < fuel
      → LinkedRight cmp same decode fetch slots left xs
      → ReadsAll cmp same decode fetch slots key xs
      → DeletesFrom fuel xs
  deletes_from fuel left [] n linked reads = tt
  deletes_from zero left (x ∷ xs) n linked reads = absurd (omega (arith, n))
  deletes_from (suc fuel) left (x ∷ xs) n (here, linked) (r, reads) =
      let a = at_leaf left x (first_id xs) here in
      here_or_later fuel left x xs a a.found refl (r, reads)
        (deletes_from fuel (some x.id) xs (omega (arith, n)) linked reads)

  pub delete-Start :
      (fuel landed rounds : ℕ) (chain : List (Leaf T))
      (s : Start cmp same decode fetch slots key fuel landed chain)
      → length chain < rounds
      → Deletes rounds s.first_leaf.id (entries_of chain)
  delete-Start fuel landed rounds chain s h =
      let count = length-unwind s.earlier (s.first_leaf ∷ s.later) in
      let all = ap length s.parts in
      let d =
        deletes_from rounds s.left (s.first_leaf ∷ s.later) (omega (arith, h, count, all)) s.linked
          s.reads in
      let apart : has (entries_of chain) ≡ has (entries_of (s.first_leaf ∷ s.later)) =
        ap (λ c. has (entries_of c)) (sym s.parts)
        ∙ ap has (entries-unwind s.earlier (s.first_leaf ∷ s.later))
        ∙ has_entry-append cmp same decode key rid (entries_of (unwind s.earlier []))
            (entries_of (s.first_leaf ∷ s.later))
        ∙ ap (λ b. b || has (entries_of (s.first_leaf ∷ s.later)))
            (without-has_entry cmp same decode key rid (entries_of (unwind s.earlier [])) s.gone) in
      record { place = d.place; finds = d.finds; at = d.at; among = apart ∙ d.among }
