-- ===== src/Tests/Headers.antt =====
-- page.rs on concrete pages.
use crusty_db.Prelude.{ℕ, ◌≤◌, ◌<◌, ◌≡◌, refl, ◌⊎◌, List, [], ◌∷◌, some, arith}
use crusty_db.Ids.{Lsn}
use crusty_db.Page.{new, get_lsn, set_lsn, compare_page}
use crusty_db.Page.Sequence.{lsn_max, Precedes, get-set_lsn}
use crusty_db.Page.Differences.{in_runs, difference_at, compare_page-difference_at}

abbrev later : Lsn
later = record { page_id = 2; slot_id = 9 }

set_lsn_example :
    (get_lsn (set_lsn (new 1) later) ≡ lsn_max (get_lsn (new 1)) later)
    × Precedes (get_lsn (new 1)) (get_lsn (set_lsn (new 1) later))
    × Precedes later (get_lsn (set_lsn (new 1) later))
    × ((j : ℕ) → (j < 4) ⊎ (10 ≤ j) → set_lsn (new 1) later j ≡ new 1 j)
set_lsn_example = get-set_lsn (new 1) later (omega arith) (omega arith)

abbrev left_bytes : List ℕ
left_bytes = 1 ∷ 2 ∷ 3 ∷ 4 ∷ 5 ∷ []

abbrev right_bytes : List ℕ
right_bytes = 1 ∷ 7 ∷ 8 ∷ 4 ∷ 5 ∷ []

compare_page_example :
    (runs : List (ℕ × List ℕ)) × (compare_page left_bytes right_bytes ≡ some runs)
    × ((i : ℕ) → in_runs runs i ≡ difference_at left_bytes right_bytes i)
compare_page_example = compare_page-difference_at left_bytes right_bytes refl (omega arith) refl
