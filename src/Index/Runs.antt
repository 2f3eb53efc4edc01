-- ===== src/Index/Runs.antt =====
-- The leaves of an index as a chain, and the run of leaves that a search reads.
use Prim.Native.Nat.{Ordering}
use crusty_db.Prelude.{
  ℕ, zero, suc, ◌+◌, ◌<◌, ◌≡◌, refl, sym, ◌∙◌, ap, ◌⊎◌, inl, inr, Bool, true, false, List, [], ◌∷◌,
  ◌++◌, Option, none, some, length, arith, Bool-cases,
}
use mathlib.Core.List.{append_assoc, append-nil}
use crusty_db.Bytes.{Array}
use crusty_db.Ids.{ValueId}
use crusty_db.Order.Slices.{same_slices}
use crusty_db.Query.{Outcome, ok}
use crusty_db.Index.{NodeEntry, ends_with, rids_of}
use crusty_db.Index.Search.{read_leaf, leftmost_run_leaf, collect_run}

pub record Leaf (T : Type 0) : Type 0 where
  pub id : ℕ
  pub entries : List (List T × ValueId)

-- The leaves before one, nearest first, put back before those after it.
abbrev pub unwind : {A : Type 0} → List A → List A → List A
unwind [] after = after
unwind (x ∷ before) after = unwind before (x ∷ after)

abbrev pub entries_of : {T : Type 0} → List (Leaf T) → List (List T × ValueId)
entries_of [] = []
entries_of (x ∷ xs) = x.entries ++ entries_of xs

abbrev pub first_id : {T : Type 0} → List (Leaf T) → Option ℕ
first_id [] = none
first_id (x ∷ xs) = some x.id

pub entries-unwind :
    {T : Type 0} (xs ys : List (Leaf T))
    → entries_of (unwind xs ys) ≡ entries_of (unwind xs []) ++ entries_of ys
entries-unwind [] ys = refl
entries-unwind (x ∷ xs) ys =
    rw (entries-unwind xs (x ∷ ys), entries-unwind xs (x ∷ []), append-nil x.entries)
      (sym (append_assoc (entries_of (unwind xs [])) x.entries (entries_of ys)))

pub length-unwind : {A : Type 0} (xs ys : List A) → length (unwind xs ys) ≡ length xs + length ys
length-unwind [] ys = ground arith
length-unwind (x ∷ xs) ys = ground (arith, length-unwind xs (x ∷ ys))

module _ {T : Type 0} (cmp : T → T → Ordering) (same : T → T → Bool)
    (decode : List ℕ → Option (NodeEntry T)) (fetch : ℕ → Outcome Array) (slots : ℕ) where
  -- The page of a leaf has its entries and these siblings.
  abbrev pub IsLeaf : Option ℕ → Leaf T → Option ℕ → Type 0
  IsLeaf left x right =
      read_leaf cmp same decode fetch slots x.id
      ≡ ok (record { left_sibling = left; right_sibling = right; entries = x.entries })

  -- Linked leaves, nearest first, with the leaf after the first, and in order, with the one before.
  abbrev pub LinkedLeft : List (Leaf T) → Option ℕ → Type 0
  LinkedLeft [] right = Unit
  LinkedLeft (x ∷ before) right = IsLeaf (first_id before) x right × LinkedLeft before (some x.id)

  abbrev pub LinkedRight : Option ℕ → List (Leaf T) → Type 0
  LinkedRight left [] = Unit
  LinkedRight left (x ∷ xs) = IsLeaf left x (first_id xs) × LinkedRight (some x.id) xs

  abbrev pub rids : List T → List (List T × ValueId) → List ValueId
  rids key es = rids_of cmp same decode key es

  pub rids-append :
      (key : List T) (xs ys : List (List T × ValueId))
      → rids key (xs ++ ys) ≡ rids key xs ++ rids key ys
  unfolding rids_of
  rids-append key [] ys = refl
  rids-append key ((k, rid) ∷ xs) ys = elim (Bool-cases (same_slices same k key)) [
    | inl e ↦ rw e (ap (λ l. rid ∷ l) (rids-append key xs ys))
    | inr e ↦ rw e (rids-append key xs ys)
  ]

  pub append_nil : {A : Type 0} (xs ys : List A) → xs ++ ys ≡ [] → (xs ≡ []) × (ys ≡ [])
  append_nil [] ys e = (refl, e)
  append_nil (x ∷ xs) ys e = absurd cc

  module _ (key : List T) where
    abbrev pub ends : Leaf T → Bool
    ends x = ends_with cmp same decode key x.entries

    -- Where a leaf does not end with the key, the leaves after it do not have it.
    abbrev pub ReadsAll : List (Leaf T) → Type 0
    ReadsAll [] = Unit
    ReadsAll (x ∷ xs) =
        ((ends x ≡ true) ⊎ ((ends x ≡ false) × (rids key (entries_of xs) ≡ []))) × ReadsAll xs

    collect_all :
        (fuel : ℕ) (left : Option ℕ) (xs : List (Leaf T))
        → length xs < fuel
        → LinkedRight left xs
        → ReadsAll xs
        → collect_run cmp same decode fetch slots fuel (first_id xs) key
          ≡ ok (rids key (entries_of xs))
    unfolding collect_run rids_of
    collect_all zero left xs h l r = absurd (omega (arith, h))
    collect_all (suc fuel) left [] h l r = refl
    collect_all (suc fuel) left (x ∷ xs) h (here, l) (inl e, r) =
        rw (here, e, collect_all fuel (some x.id) xs (omega (arith, h)) l r)
          (ap ok (sym (rids-append key x.entries (entries_of xs))))
    collect_all (suc (suc fuel)) left (x ∷ xs) h (here, l) (inr (e, gone), r) =
        rw (here, e)
          (ap ok (
            ap (λ m. rids key x.entries ++ m) (sym gone)
            ∙ sym (rids-append key x.entries (entries_of xs))))
    collect_all (suc zero) left (x ∷ xs) h (here, l) (inr (e, gone), r) = absurd (omega (arith, h))

    -- Leaves that do not have the key are read or not.
    pub without-ReadsAll : (xs : List (Leaf T)) → rids key (entries_of xs) ≡ [] → ReadsAll xs
    without-ReadsAll [] e = tt
    without-ReadsAll (x ∷ xs) e =
        let (a, b) =
          append_nil (rids key x.entries) (rids key (entries_of xs))
            (sym (rids-append key x.entries (entries_of xs)) ∙ e) in
        (elim (Bool-cases (ends x)) [ inl q ↦ inl q | inr q ↦ inr (q, b) ], without-ReadsAll xs b)

    -- Where the walk to the left stops, the leaves further left do not have the key.
    abbrev pub StopsRight : List (Leaf T) → Type 0
    StopsRight [] = Unit
    StopsRight (b ∷ before) =
        ((ends_with cmp same decode key b.entries ≡ true) × StopsRight before)
        ⊎ ((ends_with cmp same decode key b.entries ≡ false)
            × (rids key (entries_of (unwind (b ∷ before) [])) ≡ []))

    look_left :
        (fuel : ℕ) (x b : Leaf T) (left right right' : Option ℕ)
        → IsLeaf (some b.id) x right
        → IsLeaf left b right'
        → leftmost_run_leaf cmp same decode fetch slots (suc fuel) x.id key
          ≡ (elim (ends_with cmp same decode key b.entries) as (λ v. Outcome ℕ) [
            | true ↦ leftmost_run_leaf cmp same decode fetch slots fuel b.id key
            | false ↦ ok x.id
          ])
    unfolding leftmost_run_leaf
    look_left fuel x b left right right' here there = rw (here, there) refl

    -- Where a run starts in a chain: the leaf that the walk to the left ends at.
    pub record Start (fuel landed : ℕ) (chain : List (Leaf T)) : Type 0 where
      pub earlier : List (Leaf T)
      pub first_leaf : Leaf T
      pub later : List (Leaf T)
      pub left : Option ℕ
      pub lands : leftmost_run_leaf cmp same decode fetch slots fuel landed key ≡ ok first_leaf.id
      pub parts : unwind earlier (first_leaf ∷ later) ≡ chain
      pub linked : LinkedRight left (first_leaf ∷ later)
      pub reads : ReadsAll (first_leaf ∷ later)
      pub gone : rids key (entries_of (unwind earlier [])) ≡ []

    pub walk :
        (fuel : ℕ) (before : List (Leaf T)) (x : Leaf T) (after : List (Leaf T))
        → length before < fuel
        → LinkedLeft (x ∷ before) (first_id after)
        → LinkedRight (some x.id) after
        → StopsRight before
        → ReadsAll (x ∷ after)
        → Start fuel x.id (unwind before (x ∷ after))
    unfolding leftmost_run_leaf rids_of
    walk zero before x after h left right stops reads = absurd (omega (arith, h))
    walk (suc fuel) [] x after h (here, left) right stops reads = record {
      earlier = [];
      first_leaf = x;
      later = after;
      left = none;
      lands = rw here refl;
      parts = refl;
      linked = (here, right);
      reads = reads;
      gone = refl;
    }
    walk (suc fuel) (b ∷ bs) x after h (here, (there, left)) right (inl (e, stops)) reads =
        let r =
          walk fuel bs b (x ∷ after) (omega (arith, h)) (there, left) (here, right) stops
            (inl e, reads) in
        record {
          earlier = r.earlier;
          first_leaf = r.first_leaf;
          later = r.later;
          left = r.left;
          lands =
              look_left fuel x b (first_id bs) (first_id after) (some x.id) here there
              ∙ rw e r.lands;
          parts = r.parts;
          linked = r.linked;
          reads = r.reads;
          gone = r.gone;
        }
    walk (suc fuel) (b ∷ bs) x after h (here, (there, left)) right (inr (e, gone)) reads = record {
      earlier = b ∷ bs;
      first_leaf = x;
      later = after;
      left = some b.id;
      lands = look_left fuel x b (first_id bs) (first_id after) (some x.id) here there ∙ rw e refl;
      parts = refl;
      linked = (here, right);
      reads = reads;
      gone = gone;
    }

    pub collect-Start :
        (fuel landed rounds : ℕ) (chain : List (Leaf T)) (s : Start fuel landed chain)
        → length chain < rounds
        → collect_run cmp same decode fetch slots rounds (some s.first_leaf.id) key
          ≡ ok (rids key (entries_of chain))
    collect-Start fuel landed rounds chain s h =
        let count = length-unwind s.earlier (s.first_leaf ∷ s.later) in
        let all = ap length s.parts in
        collect_all rounds s.left (s.first_leaf ∷ s.later) (omega (arith, h, count, all)) s.linked
          s.reads
        ∙ ap ok (
            sym (
              ap (λ c. rids key (entries_of c)) (sym s.parts)
              ∙ ap (rids key) (entries-unwind s.earlier (s.first_leaf ∷ s.later))
              ∙ rids-append key (entries_of (unwind s.earlier []))
                  (entries_of (s.first_leaf ∷ s.later))
              ∙ ap (λ l. l ++ rids key (entries_of (s.first_leaf ∷ s.later))) s.gone))
