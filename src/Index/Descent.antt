-- ===== src/Index/Descent.antt =====
-- `find_leaf` on a tree of pages.
use mathlib.Core.List.{append_assoc}
use Prim.Native.Nat.{Ordering}
use crusty_db.Prelude.{
  ℕ, zero, suc, ◌≡◌, refl, sym, ◌∙◌, ap, Bool, true, false, List, [], ◌∷◌, ◌++◌, Option, none, inl,
  inr, Bool-cases,
}
use crusty_db.Bytes.{Array}
use crusty_db.Order.{is_le, IsOrder}
use crusty_db.Order.Slices.{compare_slices}
use crusty_db.Query.{Outcome, ok}
use crusty_db.Index.{NodeEntry, is_leaf_from, read_internal_entries, find_child, child_from}
use crusty_db.Index.Search.{find_leaf}
use crusty_db.Index.Runs.{Leaf, entries_of}
use crusty_db.Index.Ordered.{AllAtMost, AllAtLeast, AllAbove}
use crusty_db.Index.Tree.{
  Tree, leaf_page, node_page, Branches, no_branches, branch, page_of, leaves, branch_leaves,
  separators, at_most_leaves, above_leaves, at_most_trans, at_least-above,
}

module _ {T : Type 0} (cmp : T → T → Ordering) (same : T → T → Bool)
    (decode : List ℕ → Option (NodeEntry T)) (fetch : ℕ → Outcome Array) (slots : ℕ) where
  -- The page of a leaf, and of a node with these separators and children.
  abbrev pub IsLeafPage : ℕ → Type 0
  IsLeafPage p =
      (page : Array) × ((fetch p ≡ ok page) × (is_leaf_from cmp same decode slots page 0 ≡ ok true))

  abbrev pub IsNodePage : ℕ → List (Option (List T) × ℕ) → Type 0
  IsNodePage p entries =
      (page : Array) × ((fetch p ≡ ok page)
        × ((is_leaf_from cmp same decode slots page 0 ≡ ok false)
            × (read_internal_entries cmp same decode slots page ≡ ok entries)))

  -- A tree of less than `n` levels as the pages store it. Each separator is at most the keys of its
  -- child and of the later ones, and at least those of the earlier ones, which `earlier` are.
  abbrev mutual
    pub IsStored : ℕ → Tree T → Type 0
    IsStored zero t = ⊥
    IsStored (suc n) (leaf_page x) = IsLeafPage x.id
    IsStored (suc n) (node_page p t bs) =
        IsNodePage p ((none, page_of t) ∷ separators bs)
        × (IsStored n t × AreStored n (leaves t) bs)

    pub AreStored : ℕ → List (Leaf T) → Branches T → Type 0
    AreStored n earlier no_branches = Unit
    AreStored n earlier (branch k t bs) =
        (AllAtMost cmp (entries_of earlier) k
          × AllAtLeast cmp (entries_of (leaves t ++ branch_leaves bs)) k)
        × (IsStored n t × AreStored n (earlier ++ leaves t) bs)

  -- What the child for a key is, between the leaves before it and those after it.
  record Chosen (n : ℕ) (key : List T) (all : List (Leaf T)) (child : ℕ) : Type 0 where
    to : Tree T
    before : List (Leaf T)
    after : List (Leaf T)
    stored : IsStored n to
    at : child ≡ page_of to
    parts : all ≡ before ++ (leaves to ++ after)
    below : AllAtMost cmp (entries_of before) key
    above : AllAbove cmp (entries_of after) key

  module _ (o : IsOrder cmp) (key : List T) where
    choose :
        (n : ℕ) (bs : Branches T) (inner : List (Leaf T)) (c : Tree T)
        → IsStored n c
        → AreStored n (inner ++ leaves c) bs
        → AllAtMost cmp (entries_of inner) key
        → Chosen n key
            ((inner ++ leaves c) ++ branch_leaves bs)
            (child_from cmp same decode key (page_of c) (separators bs))
    unfolding child_from
    choose n no_branches inner c s ss h = record {
      to = c;
      before = inner;
      after = [];
      stored = s;
      at = refl;
      parts = append_assoc inner (leaves c) [];
      below = h;
      above = tt;
    }
    choose n (branch k t bs) inner c s ((most, least), (st, ss)) h =
        elim (Bool-cases (is_le (compare_slices cmp k key))) [
          | inl e ↦
              let r =
                choose n bs (inner ++ leaves c) t st ss
                  (at_most_trans cmp o (entries_of (inner ++ leaves c)) k key most e) in
              record {
                to = r.to;
                before = r.before;
                after = r.after;
                stored = r.stored;
                at = rw e r.at;
                parts =
                    sym (append_assoc (inner ++ leaves c) (leaves t) (branch_leaves bs)) ∙ r.parts;
                below = r.below;
                above = r.above;
              }
          | inr e ↦ record {
            to = c;
            before = inner;
            after = leaves t ++ branch_leaves bs;
            stored = s;
            at = rw e refl;
            parts = append_assoc inner (leaves c) (leaves t ++ branch_leaves bs);
            below = h;
            above = at_least-above cmp o (entries_of (leaves t ++ branch_leaves bs)) k key least e;
          }
        ]

    -- What the leaf for a key is.
    pub record Landed (fuel : ℕ) (t : Tree T) : Type 0 where
      pub leaf : Leaf T
      pub before : List (Leaf T)
      pub after : List (Leaf T)
      pub found : find_leaf cmp same decode fetch slots fuel (page_of t) key ≡ ok leaf.id
      pub parts : leaves t ≡ before ++ (leaf ∷ after)
      pub below : AllAtMost cmp (entries_of before) key
      pub above : AllAbove cmp (entries_of after) key

    pub find_leaf_lem : (fuel : ℕ) (t : Tree T) → IsStored fuel t → Landed fuel t
    unfolding find_leaf find_child
    find_leaf_lem zero t s = absurd s
    find_leaf_lem (suc n) (leaf_page x) (page, (here, is_leaf)) = record {
      leaf = x;
      before = [];
      after = [];
      found = rw (here, is_leaf) refl;
      parts = refl;
      below = tt;
      above = tt;
    }
    find_leaf_lem (suc n) (node_page p t bs) ((page, (here, (is_leaf, entries))), (s, ss)) =
        let c = choose n bs [] t s ss tt in
        let r = find_leaf_lem n c.to c.stored in
        record {
          leaf = r.leaf;
          before = c.before ++ r.before;
          after = r.after ++ c.after;
          found = rw (here, is_leaf, entries, c.at) r.found;
          parts =
              c.parts
              ∙ ap (λ l. c.before ++ (l ++ c.after)) r.parts
              ∙ ap (λ l. c.before ++ l) (append_assoc r.before (r.leaf ∷ r.after) c.after)
              ∙ sym (append_assoc c.before r.before (r.leaf ∷ (r.after ++ c.after)));
          below = at_most_leaves cmp c.before r.before key c.below r.below;
          above = above_leaves cmp r.after c.after key r.above c.above;
        }
