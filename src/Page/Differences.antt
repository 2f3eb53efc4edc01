-- ===== src/Page/Differences.antt =====
-- page.rs, `compare_page`: the runs of bytes it returns.
use crusty_db.Prelude.{
  ℕ, zero, suc, ◌+◌, ◌-◌, ◌%◌, ◌≤◌, ◌<◌, ◌≡◌, ◌≢◌, refl, sym, ◌∙◌, Bool, true, false, List, [], ◌∷◌,
  ◌++◌, Option, none, some, ◌==◌, leb, ltb, if◌then◌else◌, length, length-append, get_elem?, arith,
  Bool-cases, inl, inr,
}
use crusty_db.Page.{Diff, compare_byte, compare_from, no_diff, compare_page}

-- The byte that a run has for an index, and that the first of several runs has that has one.
abbrev pub in_run : ℕ × List ℕ → ℕ → Option ℕ
in_run (start, bytes) i = if leb start i then get_elem? bytes (i - start) else none

abbrev pub or_else : Option ℕ → Option ℕ → Option ℕ
or_else none y = y
or_else (some x) y = some x

abbrev pub in_runs : List (ℕ × List ℕ) → ℕ → Option ℕ
in_runs [] i = none
in_runs (run ∷ runs) i = or_else (in_run run i) (in_runs runs i)

-- The byte of the first list at an index where the two lists differ.
abbrev pub difference_at : List ℕ → List ℕ → ℕ → Option ℕ
difference_at (b ∷ bytes) (c ∷ others) zero = if b == c then none else some b
difference_at (b ∷ bytes) (c ∷ others) (suc i) = difference_at bytes others i
difference_at bytes others i = none

or_else_assoc : (x y z : Option ℕ) → or_else (or_else x y) z ≡ or_else x (or_else y z)
or_else_assoc none y z = refl
or_else_assoc (some x) y z = refl

in_runs-append :
    (xs ys : List (ℕ × List ℕ)) (i : ℕ)
    → in_runs (xs ++ ys) i ≡ or_else (in_runs xs i) (in_runs ys i)
in_runs-append [] ys i = refl
in_runs-append (x ∷ xs) ys i =
    rw (in_runs-append xs ys i) (sym (or_else_assoc (in_run x i) (in_runs xs i) (in_runs ys i)))

get-end :
    (xs : List ℕ) (b k : ℕ)
    → get_elem? (xs ++ (b ∷ [])) k ≡ (if k == length xs then some b else get_elem? xs k)
get-end [] b zero = refl
get-end [] b (suc k) = ground arith
get-end (x ∷ xs) b zero = ground arith
get-end (x ∷ xs) b (suc k) = ground (arith, get-end xs b k)

difference_at_beyond : (xs ys : List ℕ) (i : ℕ) → length xs ≤ i → difference_at xs ys i ≡ none
difference_at_beyond [] ys i h = refl
difference_at_beyond (x ∷ xs) [] i h = refl
difference_at_beyond (x ∷ xs) (y ∷ ys) zero h = absurd (omega (arith, h))
difference_at_beyond (x ∷ xs) (y ∷ ys) (suc i) h = difference_at_beyond xs ys i (omega (arith, h))

-- The runs that are complete, and the one that is open.
abbrev pending : Diff → List (ℕ × List ℕ)
pending d = if d.in_diff then d.res ++ ((d.diff_start, d.diff_vec) ∷ []) else d.res

-- The loop has compared the bytes below `k`, where `w` says what differs.
record Compared (w : ℕ → Option ℕ) (d : Diff) (k : ℕ) : Type 0 where
  length_open : d.in_diff ≡ true → d.diff_start + length d.diff_vec ≡ k
  last_differs : d.in_diff ≡ true → (0 < k) × (w (k - 1) ≢ none)
  no_vec : d.in_diff ≡ false → d.diff_vec ≡ []
  runs : (i : ℕ) → in_runs (pending d) i ≡ (if ltb i k then w i else none)

module _ (w : ℕ → Option ℕ) (k b c : ℕ) (res : List (ℕ × List ℕ)) (start : ℕ) (vec : List ℕ) where
  abbrev state : Bool → Diff
  state f = record { res = res; in_diff = f; diff_start = start; diff_vec = vec }

  differs_open :
      (b == c) ≡ false
      → w k ≡ some b
      → Compared w (state true) k
      → Compared w (compare_byte (state true) k b c) (k + 1)
  unfolding compare_byte
  differs_open e wk v = rw e (record {
    length_open = λ h. omega (arith, v.length_open refl, length-append vec (b ∷ []));
    last_differs = λ h. (omega arith, rw (k_again, wk) (λ q. cc));
    no_vec = λ h. absurd cc;
    runs = λ i. rw (in_runs-append res ((start, vec ++ (b ∷ [])) ∷ []) i) (
        ground (
          arith,
          v.runs i,
          in_runs-append res ((start, vec) ∷ []) i,
          get-end vec b (i - start),
          v.length_open refl,
          wk,
        ));
  })
    where
      k_again : k + 1 - 1 ≡ k
      k_again = omega arith

  differs_closed :
      (b == c) ≡ false
      → w k ≡ some b
      → Compared w (state false) k
      → Compared w (compare_byte (state false) k b c) (k + 1)
  unfolding compare_byte
  differs_closed e wk v =
      rw (e, v.no_vec refl)
        (record {
          length_open = λ h. omega arith;
          last_differs = λ h. (omega arith, rw (k_again, wk) (λ q. cc));
          no_vec = λ h. absurd cc;
          runs = λ i.
              rw (in_runs-append res ((k, b ∷ []) ∷ []) i)
                (ground (arith, v.runs i, get-end [] b (i - k), wk));
        })
    where
      k_again : k + 1 - 1 ≡ k
      k_again = omega arith

  same_open :
      (b == c) ≡ true
      → w k ≡ none
      → k < 65536
      → Compared w (state true) k
      → Compared w (compare_byte (state true) k b c) (k + 1)
  unfolding compare_byte
  same_open e wk small v =
      rw (e, small_start)
        (record {
          length_open = λ h. absurd cc;
          last_differs = λ h. absurd cc;
          no_vec = λ h. refl;
          runs = λ i. ground (arith, v.runs i, wk);
        })
    where
      small_start : start % 65536 ≡ start
      small_start = omega (arith, v.length_open refl, small)

  same_closed :
      (b == c) ≡ true
      → w k ≡ none
      → Compared w (state false) k
      → Compared w (compare_byte (state false) k b c) (k + 1)
  unfolding compare_byte
  same_closed e wk v = rw e (record {
    length_open = λ h. absurd cc;
    last_differs = λ h. absurd cc;
    no_vec = λ h. v.no_vec refl;
    runs = λ i. ground (arith, v.runs i, wk);
  })

compare_byte-Compared :
    (w : ℕ → Option ℕ) (d : Diff) (k b c : ℕ)
    → w k ≡ (if b == c then none else some b)
    → k < 65536
    → Compared w d k
    → Compared w (compare_byte d k b c) (k + 1)
compare_byte-Compared w d k b c wk small v = by_cases d.in_diff v
  where
    by_cases :
        (f : Bool)
        → Compared w (state w k b c d.res d.diff_start d.diff_vec f) k
        → Compared w (compare_byte (state w k b c d.res d.diff_start d.diff_vec f) k b c) (k + 1)
    by_cases true v = elim (Bool-cases (b == c)) [
      | inl e ↦ same_open w k b c d.res d.diff_start d.diff_vec e (rw e at wk) small v
      | inr e ↦ differs_open w k b c d.res d.diff_start d.diff_vec e (rw e at wk) v
    ]
    by_cases false v = elim (Bool-cases (b == c)) [
      | inl e ↦ same_closed w k b c d.res d.diff_start d.diff_vec e (rw e at wk) v
      | inr e ↦ differs_closed w k b c d.res d.diff_start d.diff_vec e (rw e at wk) v
    ]

compare_from-Compared :
    (w : ℕ → Option ℕ) (d : Diff) (k : ℕ) (xs ys : List ℕ)
    → length xs ≡ length ys
    → k + length xs ≤ 65536
    → ((i : ℕ) → w (k + i) ≡ difference_at xs ys i)
    → Compared w d k
    → Compared w (compare_from d k xs ys) (k + length xs)
unfolding compare_from
compare_from-Compared w d k [] [] e small h v = let z : k + 0 ≡ k = omega arith in rw z v
compare_from-Compared w d k [] (y ∷ ys) e small h v = absurd (omega (arith, e))
compare_from-Compared w d k (x ∷ xs) [] e small h v = absurd (omega (arith, e))
compare_from-Compared w d k (x ∷ xs) (y ∷ ys) e small h v =
    let next_k : k + suc (length xs) ≡ k + 1 + length xs = omega arith in
    let here : k + 0 ≡ k = omega arith in
    rw next_k (
      compare_from-Compared w (compare_byte d k x y) (k + 1) xs ys (omega (arith, e))
        (omega (arith, small))
        (λ i. let later : k + 1 + i ≡ k + suc i = omega arith in rw later (h (suc i)))
        (compare_byte-Compared w d k x y (rw here at (h 0)) (omega (arith, small)) v))

-- `compare_page` of two lists of equal length, at most 65536, which agree in their last byte,
-- returns runs that have, for each index where the lists differ, the byte of the first list, and
-- nothing for any other index.
pub compare_page-difference_at :
    (xs ys : List ℕ)
    → length xs ≡ length ys
    → length xs ≤ 65536
    → difference_at xs ys (length xs - 1) ≡ none
    → (runs : List (ℕ × List ℕ)) × (compare_page xs ys ≡ some runs)
      × ((i : ℕ) → in_runs runs i ≡ difference_at xs ys i)
unfolding compare_page
compare_page-difference_at xs ys e small last =
    (d.res, rw same_length refl, λ i. settled d.in_diff (v.last_differs) i (v.runs i))
  where
    w : ℕ → Option ℕ
    w i = difference_at xs ys i

    d : Diff
    d = compare_from no_diff 0 xs ys

    start : Compared w no_diff 0
    start = record {
      length_open = λ h. absurd cc;
      last_differs = λ h. absurd cc;
      no_vec = λ h. refl;
      runs = λ i. ground arith;
    }

    v : Compared w d (0 + length xs)
    v =
        compare_from-Compared w no_diff 0 xs ys e (omega (arith, small))
          (λ i. let z : 0 + i ≡ i = omega arith in rw z refl) start

    same_length : (length xs == length ys) ≡ true
    same_length = rw e (ground arith)

    settled :
        (f : Bool)
        → (f ≡ true → (0 < 0 + length xs) × (w (0 + length xs - 1) ≢ none))
        → (i : ℕ)
        → in_runs (if f then d.res ++ ((d.diff_start, d.diff_vec) ∷ []) else d.res) i
          ≡ (if ltb i (0 + length xs) then w i else none)
        → in_runs d.res i ≡ difference_at xs ys i
    settled true h i r =
        let z : 0 + length xs - 1 ≡ length xs - 1 = omega arith in absurd ((h refl).1 (rw z last))
    settled false h i r = elim (Bool-cases (ltb i (0 + length xs))) [
      | inl inside ↦ r ∙ rw inside refl
      | inr beyond ↦ r ∙ rw beyond (sym (difference_at_beyond xs ys i (ground (arith, beyond))))
    ]
