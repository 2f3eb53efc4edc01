-- ===== src/Tests/Removals.antt =====
-- `delete` on an index of one leaf, whose pages the heap page's operations made.
use Prim.Native.Nat.{compare}
use mathlib.Core.Path.{subst}
use crusty_db.Prelude.{
  ℕ, zero, suc, ◌<◌, ◌≡◌, refl, sym, ap, ◌==◌, true, false, List, [], ◌∷◌, none, inl, inr, ◌⊎◌,
  length, arith,
}
use crusty_db.Bytes.{Array}
use crusty_db.HeapPage.Header.{get_num_slots, get_free_space_ptr}
use crusty_db.HeapPage.Values.{add_value}
use crusty_db.HeapPage.Layout.{layout}
use crusty_db.HeapPage.Wf.{IsWf}
use crusty_db.HeapPage.Adding.{NoSpace, add_value-Changed}
use crusty_db.HeapPage.Iter.{next, next_from}
use crusty_db.Order.{sort_by}
use crusty_db.Order.Slices.{compare_slices, same_slices}
use crusty_db.MemStore.{same_id, same_option}
use crusty_db.Query.{Outcome, ok, err}
use crusty_db.Index.{is_leaf_from, leaf_from, read_leaf_entries}
use crusty_db.Index.Search.{get_root_page_id, read_leaf}
use crusty_db.Index.Delete.{delete}
use crusty_db.Index.Runs.{Leaf, LinkedRight}
use crusty_db.Index.Tree.{leaf_page}
use crusty_db.Index.Descent.{IsStored}
use crusty_db.Index.Erasing.{has_entry, result_or}
use crusty_db.Index.Removing.{Removes, delete-Removes}
use crusty_db.Tests.Pages.{zeros, fresh, page_in, running, fresh-IsWf, fresh-slots, fresh-fsp}
use crusty_db.Tests.Plans.{ℕ-IsOrder, ℕ-Decides}
use crusty_db.Tests.Indexes.{entry, rid}

abbrev with_value : Array → List ℕ → Array
with_value p bytes = page_in (add_value p bytes)

with_value-IsWf :
    (p : Array) (bytes : List ℕ)
    → IsWf (layout p)
    → 0 < length bytes
    → ¬ NoSpace p (length bytes)
    → IsWf (layout (with_value p bytes))
with_value-IsWf p bytes wf some_bytes room = elim (add_value-Changed p bytes wf some_bytes) [
  | inl (full, ran) ↦ absurd (room full)
  | inr (q, j, free, lowest, space, ran, c) ↦
      let e : q ≡ with_value p bytes = sym (ap page_in ran) in subst (λ x. IsWf (layout x)) e c.wf
]

abbrev header_page : Array
header_page = with_value fresh (1 ∷ 0 ∷ 0 ∷ 0 ∷ [])

abbrev empty_root : Array
empty_root = with_value fresh (0 ∷ 1 ∷ 0 ∷ 0 ∷ [])

abbrev root : Array
root = with_value empty_root (2 ∷ 5 ∷ 10 ∷ 0 ∷ [])

root-numbers : (get_num_slots empty_root ≡ 1) × (get_free_space_ptr empty_root ≡ 4092)
unfolding running
root-numbers = (refl, refl)

abbrev one_leaf : ℕ → Outcome Array
one_leaf zero = ok header_page
one_leaf (suc zero) = ok root
one_leaf _ = err

abbrev root_leaf : Leaf ℕ
root_leaf = record { id = 1; entries = (5 ∷ [], rid 10) ∷ [] }

one_leaf-root : get_root_page_id compare ◌==◌ entry one_leaf 9 ≡ ok 1
unfolding get_root_page_id running
one_leaf-root = refl

one_leaf-IsStored : IsStored compare ◌==◌ entry one_leaf 9 9 (leaf_page root_leaf)
unfolding is_leaf_from running next next_from
one_leaf-IsStored = (_, (refl, refl))

one_leaf-linked : LinkedRight compare ◌==◌ entry one_leaf 9 none (root_leaf ∷ [])
unfolding leaf_from read_leaf_entries read_leaf running next next_from sort_by compare_slices
one_leaf-linked = (refl, tt)

fresh-room : ¬ NoSpace fresh 4
fresh-room full = ground (arith, full, fresh-slots, fresh-fsp)

root-room : ¬ NoSpace empty_root 4
root-room full = ground (arith, full, root-numbers)

empty_root-IsWf : IsWf (layout empty_root)
empty_root-IsWf = with_value-IsWf fresh (0 ∷ 1 ∷ 0 ∷ 0 ∷ []) fresh-IsWf (omega arith) fresh-room

one_leaf-IsWf : (p : ℕ) (page : Array) → one_leaf p ≡ ok page → IsWf (layout page)
one_leaf-IsWf zero page h =
    subst (λ x. IsWf (layout x)) (ap (result_or zeros) h)
      (with_value-IsWf fresh (1 ∷ 0 ∷ 0 ∷ 0 ∷ []) fresh-IsWf (omega arith) fresh-room)
one_leaf-IsWf (suc zero) page h =
    subst (λ x. IsWf (layout x)) (ap (result_or zeros) h)
      (with_value-IsWf empty_root (2 ∷ 5 ∷ 10 ∷ 0 ∷ []) empty_root-IsWf (omega arith) root-room)
one_leaf-IsWf (suc (suc p)) page h = absurd (cc h)

delete_example :
    ((has_entry compare ◌==◌ entry (5 ∷ []) (rid 10) root_leaf.entries ≡ false)
      × (delete compare ◌==◌ entry one_leaf 9 (5 ∷ []) (rid 10) 9 ≡ ok none))
    ⊎ ((has_entry compare ◌==◌ entry (5 ∷ []) (rid 10) root_leaf.entries ≡ true)
        × Removes compare ◌==◌ entry one_leaf 9
            (5 ∷ [])
            (rid 10)
            (delete compare ◌==◌ entry one_leaf 9 (5 ∷ []) (rid 10) 9))
delete_example =
    delete-Removes compare ◌==◌ entry one_leaf 9 (5 ∷ []) (rid 10) one_leaf-IsWf ℕ-Decides ℕ-IsOrder
      (λ a b h. ground (arith, h)) 9 (leaf_page root_leaf) one_leaf-root one_leaf-IsStored
      one_leaf-linked tt (tt, tt) (omega arith)

its_entry : has_entry compare ◌==◌ entry (5 ∷ []) (rid 10) root_leaf.entries ≡ true
unfolding same_slices same_id same_option
its_entry = refl
