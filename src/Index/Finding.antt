-- ===== src/Index/Finding.antt =====
-- The search of a stored tree, from its header page.
use mathlib.Core.List.{append-nil}
use Prim.Native.Nat.{Ordering}
use mathlib.Core.Path.{subst}
use crusty_db.Prelude.{
  ℕ, ◌<◌, ◌≡◌, refl, sym, ◌∙◌, ap, Bool, List, [], ◌∷◌, ◌++◌, Option, none, length, arith,
}
use crusty_db.Bytes.{Array}
use crusty_db.Order.{IsOrder}
use crusty_db.Order.Slices.{Decides}
use crusty_db.Query.{Outcome, ok}
use crusty_db.Index.{NodeEntry, rids_of}
use crusty_db.Index.Search.{find_leaf, get_root_page_id, search_from, search}
use crusty_db.Index.Runs.{
  Start, collect-Start, length-unwind, Leaf, unwind, entries_of, first_id, LinkedLeft, LinkedRight,
  entries-unwind,
}
use crusty_db.Index.Ordered.{AllAtMost, Ascending, Ascending-append}
use crusty_db.Index.Lookup.{Filled, Start-from}
use crusty_db.Index.Tree.{Tree, page_of, leaves}
use crusty_db.Index.Descent.{IsStored, find_leaf_lem}

-- Each leaf but the last has an entry.
abbrev pub FilledInit : {T : Type 0} → List (Leaf T) → Type 0
FilledInit [] = Unit
FilledInit (x ∷ []) = Unit
FilledInit (x ∷ y ∷ ys) = (¬ (x.entries ≡ [])) × FilledInit (y ∷ ys)

-- The leaves before one, nearest first.
abbrev turn : {A : Type 0} → List A → List A → List A
turn [] acc = acc
turn (x ∷ xs) acc = turn xs (x ∷ acc)

unwind-turn : {A : Type 0} (xs acc ys : List A) → unwind (turn xs acc) ys ≡ unwind acc (xs ++ ys)
unwind-turn [] acc ys = refl
unwind-turn (x ∷ xs) acc ys = unwind-turn xs (x ∷ acc) ys

Filled-before :
    {T : Type 0} (before : List (Leaf T)) (x : Leaf T) (after : List (Leaf T))
    → FilledInit (unwind before (x ∷ after))
    → Filled before × FilledInit (x ∷ after)
Filled-before [] x after h = (tt, h)
Filled-before (b ∷ bs) x after h =
    let (fs, (full, rest)) = Filled-before bs b (x ∷ after) h in ((full, fs), rest)

module _ {T : Type 0} (cmp : T → T → Ordering) (same : T → T → Bool)
    (decode : List ℕ → Option (NodeEntry T)) (fetch : ℕ → Outcome Array) (slots : ℕ) where
  links :
      (before : List (Leaf T)) (x : Leaf T) (after : List (Leaf T))
      → LinkedRight cmp same decode fetch slots none (unwind before (x ∷ after))
      → LinkedLeft cmp same decode fetch slots (x ∷ before) (first_id after)
        × LinkedRight cmp same decode fetch slots (first_id before) (x ∷ after)
  links [] x after (here, right) = ((here, tt), (here, right))
  links (b ∷ bs) x after h =
      let (left, (there, (here, right))) = links bs b (x ∷ after) h in ((here, left), (here, right))

  module _ (o : IsOrder cmp) (eq : Decides same) (anti : (a b : T) → cmp a b ≡ Ordering.eq → a ≡ b)
      (key : List T) where
    -- Where the descent and the walk to the left end.
    pub landing :
        (fuel : ℕ) (t : Tree T)
        → IsStored cmp same decode fetch slots fuel t
        → LinkedRight cmp same decode fetch slots none (leaves t)
        → FilledInit (leaves t)
        → Ascending cmp (entries_of (leaves t))
        → length (leaves t) < fuel
        → (id : ℕ) × (find_leaf cmp same decode fetch slots fuel (page_of t) key ≡ ok id)
          × Start cmp same decode fetch slots key fuel id (leaves t)
    landing fuel t stored linked filled asc few =
        let l = find_leaf_lem cmp same decode fetch slots o key fuel t stored in
        let before : List (Leaf T) = turn l.before [] in
        let chain : List (Leaf T) = unwind before (l.leaf ∷ l.after) in
        let parts : leaves t ≡ chain = l.parts ∙ sym (unwind-turn l.before [] (l.leaf ∷ l.after)) in
        let below : AllAtMost cmp (entries_of (unwind before [])) key =
          subst (λ xs. AllAtMost cmp (entries_of xs) key)
            (sym (append-nil l.before) ∙ sym (unwind-turn l.before [] [])) l.below in
        let (left, (here, right)) =
          links before l.leaf l.after
            (subst (λ xs. LinkedRight cmp same decode fetch slots none xs) parts linked) in
        let full = Filled-before before l.leaf l.after (subst (λ xs. FilledInit xs) parts filled) in
        let ordered : Ascending cmp (entries_of (unwind before [])) =
          Ascending-append cmp (entries_of (unwind before [])) (entries_of (l.leaf ∷ l.after)) (
            subst (λ es. Ascending cmp es)
              (ap entries_of parts ∙ entries-unwind before (l.leaf ∷ l.after)) asc) in
        let size : length chain < fuel = subst (λ xs. length xs < fuel) parts few in
        (
          l.leaf.id,
          l.found,
          subst (λ xs. Start cmp same decode fetch slots key fuel l.leaf.id xs) (sym parts)
              (Start-from cmp same decode fetch slots o eq anti key fuel before l.leaf l.after
                (omega (arith, size, length-unwind before (l.leaf ∷ l.after))) left right full.0
                ordered below l.above),
        )

    -- Where `cmp` is an order that tells all fields apart and `same` is equality, and the header page
    -- points to the root of a stored tree of less than `fuel` levels and less than `fuel` leaves, each
    -- separator at most the keys of its child and of the later ones and at least those of the
    -- earlier ones, whose leaves are chained through their siblings, each but the last with an entry,
    -- the keys ascending along the chain: `search` returns the ids of all the entries of the leaves
    -- with the key, in the order of the chain.
    pub search_lem :
        (fuel : ℕ) (t : Tree T)
        → get_root_page_id cmp same decode fetch slots ≡ ok (page_of t)
        → IsStored cmp same decode fetch slots fuel t
        → LinkedRight cmp same decode fetch slots none (leaves t)
        → FilledInit (leaves t)
        → Ascending cmp (entries_of (leaves t))
        → length (leaves t) < fuel
        → search cmp same decode fetch slots fuel key
          ≡ ok (rids_of cmp same decode key (entries_of (leaves t)))
    unfolding search search_from
    search_lem fuel t root stored linked filled asc few =
        let (id, found, s) = landing fuel t stored linked filled asc few in
        rw (root, found, s.lands)
          (collect-Start cmp same decode fetch slots key fuel id fuel (leaves t) s few)
