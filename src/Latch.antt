-- ===== src/Latch.antt =====
-- src/common/src/rwlatch.rs: the reader-writer latch, a spin lock on one atomic i16.
-- `cnt` is the bit pattern of that i16, a number below 2^16: -1 is 65535, and the negative
-- values are those from 32768 on. Additions wrap, as they do in a release build.
-- Each round of a method's loop is two atomic actions, a load and a compare-exchange, between
-- which other threads may act; the memory orders on the single location are those of one
-- history of that location.
pub mod Counting
pub mod Exclusion
pub mod Methods
use crusty_db.Prelude.{
  ℕ, ◌+◌, ◌%◌, Bool, true, false, not, List, Option, none, some, ◌∷◌, [], get_elem?, set, replicate,
  leb, ltb, ◌==◌, if◌then◌else◌,
}

abbrev pub i16_mod : ℕ
i16_mod = 65536

abbrev pub minus_one : ℕ
minus_one = 65535

abbrev pub is_negative : ℕ → Bool
is_negative c = leb 32768 c

-- `Default for RwLatch`.
abbrev pub unlocked : ℕ
unlocked = 0

-- What a loop does after its load: go round again, return false, or try to swap the value in.
pub data Verdict : Type 0 where
  spin refuse : Verdict
  swap : ℕ → Verdict

unfoldable pub is_locked : ℕ → Bool
is_locked cnt = not (cnt == 0)

unfoldable pub is_shared : ℕ → Bool
is_shared cnt = if is_negative cnt then false else ltb 0 cnt

unfoldable pub is_exclusive : ℕ → Bool
is_exclusive cnt = is_negative cnt

unfoldable pub shared : ℕ → Verdict
shared expected = if is_negative expected then spin else swap ((expected + 1) % i16_mod)

unfoldable pub try_shared : ℕ → Verdict
try_shared expected = if is_negative expected then refuse else swap ((expected + 1) % i16_mod)

unfoldable pub exclusive : ℕ → Verdict
exclusive expected = if expected == 0 then swap minus_one else spin

unfoldable pub try_exclusive : ℕ → Verdict
try_exclusive expected = if not (expected == 0) then refuse else swap minus_one

unfoldable pub upgrade : ℕ → Verdict
upgrade expected = if expected == 1 then swap minus_one else spin

unfoldable pub try_upgrade : ℕ → Verdict
try_upgrade expected = if not (expected == 1) then refuse else swap minus_one

unfoldable pub downgrade : ℕ → Verdict
downgrade expected = if expected == minus_one then swap 1 else spin

-- `fetch_sub(1)`, which wraps.
unfoldable pub release_shared : ℕ → ℕ
release_shared cnt = (cnt + minus_one) % i16_mod

unfoldable pub release_exclusive : ℕ → ℕ
release_exclusive cnt = 0

-- The methods that loop, and where a thread stands: outside, holding the latch, or in a method
-- before its load or before its compare-exchange.
pub data Op : Type 0 where
  op_shared op_try_shared op_exclusive op_try_exclusive op_upgrade op_try_upgrade op_downgrade : Op

pub data Thread : Type 0 where
  outside reading writing : Thread
  loading : Op → Thread
  swapping : Op → ℕ → ℕ → Thread

unfoldable pub round : Op → ℕ → Verdict
unfolding shared try_shared exclusive try_exclusive upgrade try_upgrade downgrade
round op_shared c = shared c
round op_try_shared c = try_shared c
round op_exclusive c = exclusive c
round op_try_exclusive c = try_exclusive c
round op_upgrade c = upgrade c
round op_try_upgrade c = try_upgrade c
round op_downgrade c = downgrade c

-- What a thread holds before a method, and after the method has succeeded.
abbrev pub before : Op → Thread
before op_shared = outside
before op_try_shared = outside
before op_exclusive = outside
before op_try_exclusive = outside
before op_upgrade = reading
before op_try_upgrade = reading
before op_downgrade = writing

abbrev pub after : Op → Thread
after op_shared = reading
after op_try_shared = reading
after op_exclusive = writing
after op_try_exclusive = writing
after op_upgrade = writing
after op_try_upgrade = writing
after op_downgrade = reading

pub data Event : Type 0 where
  begins : Op → Event
  advances releases : Event

-- A caller begins a method only with what the method starts from.
unfoldable pub begin : Op → Thread → Thread
begin op_shared outside = loading op_shared
begin op_try_shared outside = loading op_try_shared
begin op_exclusive outside = loading op_exclusive
begin op_try_exclusive outside = loading op_try_exclusive
begin op_upgrade reading = loading op_upgrade
begin op_try_upgrade reading = loading op_try_upgrade
begin op_downgrade writing = loading op_downgrade
begin _ t = t

unfoldable pub decide_round : Op → ℕ → Verdict → ℕ × Thread
decide_round op cnt spin = (cnt, loading op)
decide_round op cnt refuse = (cnt, before op)
decide_round op cnt (swap new) = (cnt, swapping op cnt new)

-- One atomic action of a thread.
unfoldable pub act : Event → ℕ → Thread → ℕ × Thread
unfolding begin decide_round round release_shared release_exclusive
act (begins op) cnt t = (cnt, begin op t)
act advances cnt (loading op) = decide_round op cnt (round op cnt)
act advances cnt (swapping op expected new) =
    if cnt == expected then (new, after op) else (cnt, loading op)
act advances cnt t = (cnt, t)
act releases cnt reading = (release_shared cnt, outside)
act releases cnt writing = (release_exclusive cnt, outside)
act releases cnt t = (cnt, t)

pub record System : Type 0 where
  pub cnt : ℕ
  pub threads : List Thread

-- Thread `i` does one action; the others stay where they are.
unfoldable pub step : System → ℕ × Event → System
step s (i, e) = elim (get_elem? s.threads i) [
  | none ↦ s
  | some t ↦ let (c, t') = act e s.cnt t in record { cnt = c; threads = set s.threads i t' }
]

unfoldable pub run : System → List (ℕ × Event) → System
unfolding step
run s [] = s
run s (e ∷ es) = run (step s e) es

unfoldable pub init : ℕ → System
init n = record { cnt = unlocked; threads = replicate n outside }
