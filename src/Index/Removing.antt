-- ===== src/Index/Removing.antt =====
-- `delete` on a stored tree.
use Prim.Native.Nat.{Ordering}
use crusty_db.Prelude.{
  ℕ, ◌<◌, ◌≡◌, refl, sym, ◌∙◌, ap, Bool, true, false, List, Option, none, some, length, arith, inl,
  inr, ◌⊎◌,
}
use mathlib.Core.Option.{some-injective}
use mathlib.Core.Path.{subst}
use crusty_db.Bytes.{Array}
use crusty_db.Ids.{ValueId}
use crusty_db.Order.{IsOrder}
use crusty_db.Order.Slices.{Decides, same_slices_iff}
use crusty_db.MemStore.Values.{same_id_iff}
use crusty_db.HeapPage.Layout.{layout}
use crusty_db.HeapPage.Wf.{IsWf}
use crusty_db.HeapPage.Reading.{contents, get_value-contents}
use crusty_db.HeapPage.Deleting.{Changed, delete_value-Changed}
use crusty_db.Query.{Outcome, ok}
use crusty_db.Index.{NodeEntry, leaf, decoded}
use crusty_db.Index.Search.{get_root_page_id}
use crusty_db.Index.Delete.{delete, delete_at}
use crusty_db.Index.Runs.{entries_of, LinkedRight}
use crusty_db.Index.Ordered.{Ascending}
use crusty_db.Index.Tree.{Tree, page_of, leaves}
use crusty_db.Index.Descent.{IsStored}
use crusty_db.Index.Finding.{FilledInit, landing}
use crusty_db.Index.Erasing.{is_entry, has_entry}
use crusty_db.Index.Deletion.{Target, has_target, delete-Start}

module _ {T : Type 0} (cmp : T → T → Ordering) (same : T → T → Bool)
    (decode : List ℕ → Option (NodeEntry T)) (fetch : ℕ → Outcome Array) (slots : ℕ) (key : List T)
    (rid : ValueId) where
  -- The page `page_id` loses the value of one slot, which is the entry.
  pub record Removes (result : Outcome (Option (ℕ × Array))) : Type 0 where
    pub page_id : ℕ
    pub slot : ℕ
    pub page : Array
    pub after : Array
    pub bytes : List ℕ
    pub was_there : fetch page_id ≡ ok page
    pub value : contents page slot ≡ some bytes
    pub decodes : decoded cmp same decode bytes ≡ ok (leaf key rid)
    pub gives : result ≡ ok (some (page_id, after))
    pub changed : Changed page after slot none

  module _ (sound : (p : ℕ) (page : Array) → fetch p ≡ ok page → IsWf (layout page))
      (eq : Decides same) where
    same_leaf :
        (k : List T) (v : ValueId)
        → is_entry cmp same decode key rid (k, v) ≡ true
        → ok (leaf k v) ≡ ok (leaf key rid)
    same_leaf k v e =
        let its_key : k ≡ key = (same_slices_iff same eq k key).0 (ground (arith, e)) in
        let its_rid : v ≡ rid = (same_id_iff v rid).0 (ground (arith, e)) in
        ap (λ l. ok (leaf l v)) its_key ∙ ap (λ r. ok (leaf key r)) its_rid

    delete_at-Removes :
        (page_id slot : ℕ)
        → Target cmp same decode fetch slots key rid (some (page_id, slot))
        → Removes (delete_at cmp same decode fetch slots key rid (some (page_id, slot)))
    unfolding delete_at
    delete_at-Removes page_id slot (page, here, (bytes, k, v, (got, (d, e)))) =
        let wf = sound page_id page here in
        let value : contents page slot ≡ some bytes =
          some-injective _ _ (sym (get_value-contents page slot wf.packed) ∙ got) in
        elim (delete_value-Changed page slot wf) [
          | inl (gone, ran) ↦ absurd (cc (sym value ∙ gone))
          | inr (q, live, ran, changed) ↦ record {
            page_id = page_id;
            slot = slot;
            page = page;
            after = q;
            bytes = bytes;
            was_there = here;
            value = value;
            decodes = d ∙ same_leaf k v e;
            gives = rw (here, ran) refl;
            changed = changed;
          }
        ]

    erased :
        (place : Option (ℕ × ℕ)) (found : Bool) (result : Outcome (Option (ℕ × Array)))
        → found ≡ has_target cmp same decode fetch slots key rid place
        → Target cmp same decode fetch slots key rid place
        → result ≡ delete_at cmp same decode fetch slots key rid place
        → ((found ≡ false) × (result ≡ ok none)) ⊎ ((found ≡ true) × Removes result)
    unfolding delete_at
    erased none found result f at r = inl (f, r)
    erased (some (page_id, slot)) found result f at r =
        inr (f, subst Removes (sym r) (delete_at-Removes page_id slot at))

    module _ (o : IsOrder cmp) (anti : (a b : T) → cmp a b ≡ Ordering.eq → a ≡ b) where
      -- Where `cmp` is an order that tells all fields apart and `same` is equality, all pages are
      -- well-formed, and the header page points to the root of a stored tree of less than `fuel`
      -- levels and less than `fuel` leaves, each separator at most the keys of its child and of the
      -- later ones and at least those of the earlier ones, whose leaves are chained through their
      -- siblings, each but the last with an entry, the keys ascending along the chain: if no leaf has
      -- an entry of the key with the id, `delete` writes nothing; otherwise it takes from one page
      -- the slot that holds such an entry, and that page is well-formed again with every other slot as
      -- it was.
      pub delete-Removes :
          (fuel : ℕ) (t : Tree T)
          → get_root_page_id cmp same decode fetch slots ≡ ok (page_of t)
          → IsStored cmp same decode fetch slots fuel t
          → LinkedRight cmp same decode fetch slots none (leaves t)
          → FilledInit (leaves t)
          → Ascending cmp (entries_of (leaves t))
          → length (leaves t) < fuel
          → ((has_entry cmp same decode key rid (entries_of (leaves t)) ≡ false)
              × (delete cmp same decode fetch slots key rid fuel ≡ ok none))
            ⊎ ((has_entry cmp same decode key rid (entries_of (leaves t)) ≡ true)
                × Removes (delete cmp same decode fetch slots key rid fuel))
      unfolding delete
      delete-Removes fuel t root stored linked filled asc few =
          let (id, found, s) =
            landing cmp same decode fetch slots o eq anti key fuel t stored linked filled asc few in
          let d = delete-Start cmp same decode fetch slots key rid fuel id fuel (leaves t) s few in
          erased d.place (has_entry cmp same decode key rid (entries_of (leaves t)))
            (delete cmp same decode fetch slots key rid fuel) d.among d.at
            (rw (root, found, s.lands, d.finds) refl)
