-- ===== src/Latch/Counting.antt =====
-- How many threads read and how many write, and how one thread's action changes the counts.
use crusty_db.Prelude.{
  ap, ◌≢◌, ℕ, zero, suc, ◌+◌, ◌≤◌, ◌<◌, ◌≡◌, refl, ◌⊎◌, List, [], ◌∷◌, some, arith, get_elem?, set,
  length, replicate, All,
}
use crusty_db.Latch.{
  Thread, outside, reading, writing, loading, swapping, Op, swap, round, before, begin,
}

-- A thread that upgrades still reads, and one that downgrades still writes.
abbrev pub held : Thread → Thread
held outside = outside
held reading = reading
held writing = writing
held (loading op) = before op
held (swapping op _ _) = before op

abbrev pub reads : Thread → ℕ
reads t = elim (held t) [ reading ↦ 1 | _ ↦ 0 ]

abbrev pub writes : Thread → ℕ
writes t = elim (held t) [ writing ↦ 1 | _ ↦ 0 ]

pub readers : List Thread → ℕ
readers [] = 0
readers (t ∷ ts) = reads t + readers ts

pub writers : List Thread → ℕ
writers [] = 0
writers (t ∷ ts) = writes t + writers ts

-- The latch's count against its holders: so many readers, or one writer and -1.
abbrev pub Agrees : ℕ → ℕ → ℕ → Type 0
Agrees c r w = ((c ≡ r) × (w ≡ 0)) ⊎ ((c ≡ 65535) × (r ≡ 0) × (w ≡ 1))

-- A thread about to swap has the value that its loop computed from what it loaded.
abbrev pub IsFaithful : Thread → Type 0
IsFaithful (swapping op e n) = round op e ≡ swap n
IsFaithful _ = Unit

pub readers-set :
    (ts : List Thread) (i : ℕ) (t u : Thread)
    → get_elem? ts i ≡ some t
    → readers (set ts i u) + reads t ≡ readers ts + reads u
unfolding readers
readers-set [] i t u h = ground arith
readers-set (x ∷ ts) zero t u h = ground arith
readers-set (x ∷ ts) (suc i) t u h = omega (arith, readers-set ts i t u h)

pub writers-set :
    (ts : List Thread) (i : ℕ) (t u : Thread)
    → get_elem? ts i ≡ some t
    → writers (set ts i u) + writes t ≡ writers ts + writes u
unfolding writers
writers-set [] i t u h = ground arith
writers-set (x ∷ ts) zero t u h = ground arith
writers-set (x ∷ ts) (suc i) t u h = omega (arith, writers-set ts i t u h)

reads-le : (t : Thread) → reads t ≤ 1
reads-le t = ground arith

pub readers-le : (ts : List Thread) → readers ts ≤ length ts
unfolding readers
readers-le [] = omega arith
readers-le (t ∷ ts) = omega (arith, readers-le ts, reads-le t)

-- A thread that does not read leaves room in the count.
pub readers-lt :
    (ts : List Thread) (i : ℕ) (t : Thread)
    → get_elem? ts i ≡ some t
    → readers ts < length ts + reads t
unfolding readers
readers-lt [] i t h = absurd (ground arith)
readers-lt (x ∷ ts) zero t h = ground (arith, readers-le ts)
readers-lt (x ∷ ts) (suc i) t h = omega (arith, readers-lt ts i t h, reads-le x)

pub reads-le_readers :
    (ts : List Thread) (i : ℕ) (t : Thread) → get_elem? ts i ≡ some t → reads t ≤ readers ts
unfolding readers
reads-le_readers [] i t h = absurd (ground arith)
reads-le_readers (x ∷ ts) zero t h = ground arith
reads-le_readers (x ∷ ts) (suc i) t h = omega (arith, reads-le_readers ts i t h)

pub writes-le_writers :
    (ts : List Thread) (i : ℕ) (t : Thread) → get_elem? ts i ≡ some t → writes t ≤ writers ts
unfolding writers
writes-le_writers [] i t h = absurd (ground arith)
writes-le_writers (x ∷ ts) zero t h = ground arith
writes-le_writers (x ∷ ts) (suc i) t h = omega (arith, writes-le_writers ts i t h)

-- Two threads at different places count twice.
pub reads-two :
    (ts : List Thread) (i j : ℕ) (t u : Thread)
    → i ≢ j
    → get_elem? ts i ≡ some t
    → get_elem? ts j ≡ some u
    → reads t + reads u ≤ readers ts
unfolding readers
reads-two [] i j t u d h k = absurd (ground arith)
reads-two (x ∷ ts) zero zero t u d h k = absurd (d refl)
reads-two (x ∷ ts) zero (suc j) t u d h k = ground (arith, reads-le_readers ts j u k)
reads-two (x ∷ ts) (suc i) zero t u d h k = ground (arith, reads-le_readers ts i t h)
reads-two (x ∷ ts) (suc i) (suc j) t u d h k =
    omega (arith, reads-two ts i j t u (λ e. d (ap suc e)) h k)

pub writes-two :
    (ts : List Thread) (i j : ℕ) (t u : Thread)
    → i ≢ j
    → get_elem? ts i ≡ some t
    → get_elem? ts j ≡ some u
    → writes t + writes u ≤ writers ts
unfolding writers
writes-two [] i j t u d h k = absurd (ground arith)
writes-two (x ∷ ts) zero zero t u d h k = absurd (d refl)
writes-two (x ∷ ts) zero (suc j) t u d h k = ground (arith, writes-le_writers ts j u k)
writes-two (x ∷ ts) (suc i) zero t u d h k = ground (arith, writes-le_writers ts i t h)
writes-two (x ∷ ts) (suc i) (suc j) t u d h k =
    omega (arith, writes-two ts i j t u (λ e. d (ap suc e)) h k)

pub readers-replicate : (n : ℕ) → readers (replicate n outside) ≡ 0
unfolding readers
readers-replicate zero = refl
readers-replicate (suc n) = omega (arith, readers-replicate n)

pub writers-replicate : (n : ℕ) → writers (replicate n outside) ≡ 0
unfolding writers
writers-replicate zero = refl
writers-replicate (suc n) = omega (arith, writers-replicate n)

pub begin-held : (op : Op) (t : Thread) → held (begin op t) ≡ held t
unfolding begin
begin-held op t = ground arith

pub counts_none :
    (ts : List Thread) → All (λ t. held t ≡ outside) ts → (readers ts ≡ 0) × (writers ts ≡ 0)
unfolding readers writers
counts_none [] a = (refl, refl)
counts_none (t ∷ ts) a = ground (arith, counts_none ts a.1, a.0)
