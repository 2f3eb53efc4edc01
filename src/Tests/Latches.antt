-- ===== src/Tests/Latches.antt =====
-- rwlatch.rs on concrete schedules.
use crusty_db.Prelude.{ℕ, ◌≡◌, ◌≢◌, refl, List, [], ◌∷◌, some, arith, get_elem?}
use crusty_db.Latch.{
  outside, reading, writing, op_shared, op_exclusive, Event, begins, advances, run, init, loading,
  act,
}
use crusty_db.Latch.Counting.{held}
use crusty_db.Latch.Exclusion.{IsConsistent, run-init-IsConsistent, mutual_exclusion}

-- Thread 0 takes the latch exclusively while thread 1 waits for it.
abbrev contended : List (ℕ × Event)
contended =
    (0, begins op_exclusive)
    ∷ (1, begins op_shared)
    ∷ (0, advances)
    ∷ (1, advances)
    ∷ (0, advances)
    ∷ (1, advances)
    ∷ (1, advances)
    ∷ []

thread_0 : get_elem? (run (init 2) contended).threads 0 ≡ some writing
unfolding run init act
thread_0 = refl

thread_1 : get_elem? (run (init 2) contended).threads 1 ≡ some (loading op_shared)
unfolding run init act
thread_1 = refl

mutual_exclusion_example :
    (held writing ≡ writing → held (loading op_shared) ≡ outside)
    × (held writing ≡ reading → held (loading op_shared) ≢ writing)
mutual_exclusion_example =
    mutual_exclusion 2 contended 0 1 writing (loading op_shared) (omega arith) (omega arith)
      thread_0 thread_1

contended-IsConsistent : IsConsistent (run (init 2) contended)
contended-IsConsistent = run-init-IsConsistent 2 contended (omega arith)
