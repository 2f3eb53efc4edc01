-- ===== src/Latch/Methods.antt =====
-- When each method of the latch can take what it asks for.
use crusty_db.Prelude.{ℕ, ◌+◌, ◌<◌, ◌≡◌, Bool, true, false, ◌&&◌, ◌==◌, if◌then◌else◌, arith, ltb}
use crusty_db.Latch.{
  Op, op_shared, op_try_shared, op_exclusive, op_try_exclusive, op_upgrade, op_try_upgrade,
  op_downgrade, act, advances, Thread, loading, after, before, is_locked, is_shared, is_exclusive,
}
use crusty_db.Latch.Counting.{Agrees}

-- The rule of a readers-writer lock: `r` readers and `w` writers hold the latch.
abbrev pub permits : Op → ℕ → ℕ → Bool
permits op_shared r w = w == 0
permits op_try_shared r w = w == 0
permits op_exclusive r w = r == 0 && w == 0
permits op_try_exclusive r w = r == 0 && w == 0
permits op_upgrade r w = r == 1
permits op_try_upgrade r w = r == 1
permits op_downgrade r w = w == 1

-- Whether a method that finds the latch taken goes round again.
abbrev pub waits : Op → Bool
waits op_try_shared = false
waits op_try_exclusive = false
waits op_try_upgrade = false
waits _ = true

-- Two actions of a thread with no other between.
abbrev pub two_actions : ℕ → Op → ℕ × Thread
two_actions c op = let (c', t) = act advances c (loading op) in act advances c' t

-- With the count in agreement with fewer than 32767 readers and the writers, a method that runs
-- one round undisturbed ends holding what it asks for exactly when the lock's rule permits it;
-- otherwise the latch is as it was, and the method has returned false (the `try_` methods) or
-- goes round again (the others).
pub two_actions_lem :
    (op : Op) (c r w : ℕ)
    → r < 32767
    → Agrees c r w
    → (permits op r w ≡ true → (two_actions c op).1 ≡ after op)
      × (permits op r w ≡ false
          → two_actions c op ≡ (c, if waits op then loading op else before op))
unfolding act
two_actions_lem op_shared c r w b a = ground arith
two_actions_lem op_try_shared c r w b a = ground arith
two_actions_lem op_exclusive c r w b a = ground arith
two_actions_lem op_try_exclusive c r w b a = ground arith
two_actions_lem op_upgrade c r w b a = ground arith
two_actions_lem op_try_upgrade c r w b a = ground arith
two_actions_lem op_downgrade c r w b a = ground arith

-- The three tests read the holders off the count.
pub tests_lem :
    (c r w : ℕ)
    → r < 32768
    → Agrees c r w
    → (is_locked c ≡ ltb 0 (r + w)) × (is_shared c ≡ ltb 0 r) × (is_exclusive c ≡ ltb 0 w)
unfolding is_locked is_shared is_exclusive
tests_lem c r w b a = ground arith
