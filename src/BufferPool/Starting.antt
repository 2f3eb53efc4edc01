-- ===== src/BufferPool/Starting.antt =====
-- A new pool.
use crusty_db.Prelude.{ℕ, zero, suc, ◌+◌, ◌<◌, ◌≤◌, refl, Option, All, arith}
use crusty_db.BaseFile.{Disk}
use crusty_db.BufferPool.{Container, new_pool, new_frame, indices_from}
use crusty_db.BufferPool.Mapping.{get}
use crusty_db.BufferPool.Invariant.{IsPool}

indices-All : (n i m : ℕ) → i + n ≤ m → All (λ j. j < m) (indices_from i n)
indices-All zero i m b = tt
indices-All (suc n) i m b = (omega (arith, b), indices-All n (i + 1) m (omega (arith, b)))

module _ {D : Type 0} (io : Disk D) where
  -- A new pool is well-formed, whatever its catalog and files are.
  pub new_pool-IsPool :
      (n : ℕ) (containers : ℕ → Option Container) (d : D) → IsPool io (new_pool n containers d)
  unfolding new_pool new_frame get
  new_pool-IsPool n containers d = record {
    mapped = λ k i e. absurd cc;
    keyed = λ k i b e. absurd cc;
    sound = λ i b. (λ e. refl, λ c k e. absurd cc, λ k e. absurd cc);
    hints = indices-All n 0 n (omega arith);
  }
