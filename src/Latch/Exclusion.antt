-- ===== src/Latch/Exclusion.antt =====
-- Mutual exclusion over every schedule of atomic actions.
use crusty_db.Prelude.{
  ℕ, zero, suc, ◌+◌, ◌<◌, ◌≡◌, refl, inl, inr, List, [], ◌∷◌, some, arith, get_elem?, set, length,
  length-set, replicate, All, Option-cases, Bool-cases, false, ap, ◌-◌, ◌==◌, ◌≢◌,
}
use crusty_db.Latch.{
  System, Thread, outside, reading, writing, loading, swapping, Op, round, Event, begins, advances,
  releases, act, begin, decide_round, Verdict, spin, refuse, swap, before, after, step, run, init,
  is_locked,
}
use crusty_db.Latch.Counting.{
  held, reads, writes, readers, writers, Agrees, IsFaithful, readers-set, writers-set, readers-lt,
  reads-le_readers, writes-le_writers, readers-replicate, writers-replicate, begin-held,
  counts_none, reads-two, writes-two,
}

-- The count agrees with the holders, no thread is about to swap in a stale value, and there are
-- fewer threads than readers that the count can hold.
pub record IsConsistent (s : System) : Type 0 where
  pub agrees : Agrees s.cnt (readers s.threads) (writers s.threads)
  pub faithful : All IsFaithful s.threads
  pub few : length s.threads < 32768

All-get :
    (ts : List Thread) (i : ℕ) (t : Thread)
    → All IsFaithful ts
    → get_elem? ts i ≡ some t
    → IsFaithful t
All-get [] i t a h = absurd (ground arith)
All-get (x ∷ ts) zero t a h = ground arith
All-get (x ∷ ts) (suc i) t a h = All-get ts i t a.1 h

All-set :
    (ts : List Thread) (i : ℕ) (t : Thread)
    → All IsFaithful ts
    → IsFaithful t
    → All IsFaithful (set ts i t)
All-set [] i t a h = tt
All-set (x ∷ ts) zero t a h = (h, a.1)
All-set (x ∷ ts) (suc i) t a h = (a.0, All-set ts i t a.1 h)

begin-IsFaithful : (op : Op) (t : Thread) → IsFaithful t → IsFaithful (begin op t)
unfolding begin
begin-IsFaithful op t f = ground arith

before-IsFaithful : (op : Op) → IsFaithful (before op)
before-IsFaithful op = ground arith

after-IsFaithful : (op : Op) → IsFaithful (after op)
after-IsFaithful op = ground arith

decide_round-IsFaithful :
    (op : Op) (c : ℕ) (v : Verdict) → round op c ≡ v → IsFaithful (decide_round op c v).1
unfolding decide_round
decide_round-IsFaithful op c spin e = tt
decide_round-IsFaithful op c refuse e = before-IsFaithful op
decide_round-IsFaithful op c (swap new) e = e

-- Whatever a thread does, it never ends up about to swap in a value that its loop did not compute.
act-IsFaithful : (e : Event) (c : ℕ) (t : Thread) → IsFaithful t → IsFaithful (act e c t).1
unfolding act
act-IsFaithful (begins op) c t f = begin-IsFaithful op t f
act-IsFaithful advances c (loading op) f = decide_round-IsFaithful op c (round op c) refl
act-IsFaithful advances c (swapping op expected new) f = elim (Bool-cases (c == expected)) [
  | inl e ↦ rw e (after-IsFaithful op)
  | inr e ↦ rw e tt
]
act-IsFaithful advances c outside f = tt
act-IsFaithful advances c reading f = tt
act-IsFaithful advances c writing f = tt
act-IsFaithful releases c outside f = tt
act-IsFaithful releases c reading f = tt
act-IsFaithful releases c writing f = tt
act-IsFaithful releases c (loading op) f = tt
act-IsFaithful releases c (swapping op expected new) f = f

decide_round-held : (op : Op) (c : ℕ) (v : Verdict) → held (decide_round op c v).1 ≡ before op
unfolding decide_round
decide_round-held op c spin = refl
decide_round-held op c refuse = ground arith
decide_round-held op c (swap new) = refl

decide_round-cnt : (op : Op) (c : ℕ) (v : Verdict) → (decide_round op c v).0 ≡ c
unfolding decide_round
decide_round-cnt op c v = ground arith

-- A successful compare-exchange moves the count from what the method starts from to what it ends in.
swap-Agrees :
    (op : Op) (c new r w : ℕ)
    → r < 32767
    → round op c ≡ swap new
    → Agrees c (r + reads (loading op)) (w + writes (loading op))
    → Agrees new (r + reads (after op)) (w + writes (after op))
unfolding round
swap-Agrees op c new r w b f a = ground arith

-- One action of one thread, the others reading and writing `r` and `w` times.
act-Agrees :
    (e : Event) (c r w : ℕ) (t : Thread)
    → r < 32767
    → IsFaithful t
    → Agrees c (r + reads t) (w + writes t)
    → Agrees (act e c t).0 (r + reads (act e c t).1) (w + writes (act e c t).1)
unfolding act
act-Agrees (begins op) c r w t b f a = rw (begin-held op t, reads, writes) a
act-Agrees advances c r w (loading op) b f a =
    rw (decide_round-held op c (round op c), decide_round-cnt op c (round op c), reads, writes) a
act-Agrees advances c r w (swapping op expected new) b f a = elim (Bool-cases (c == expected)) [
  | inl e ↦
      rw e (swap-Agrees op c new r w b (let same : c ≡ expected = ground arith in rw same f) a)
  | inr e ↦ rw e a
]
act-Agrees advances c r w outside b f a = a
act-Agrees advances c r w reading b f a = a
act-Agrees advances c r w writing b f a = a
act-Agrees releases c r w outside b f a = a
act-Agrees releases c r w reading b f a = ground arith
act-Agrees releases c r w writing b f a = ground arith
act-Agrees releases c r w (loading op) b f a = a
act-Agrees releases c r w (swapping op expected new) b f a = a

pub step-IsConsistent : (s : System) (e : ℕ × Event) → IsConsistent s → IsConsistent (step s e)
unfolding step
step-IsConsistent s (i, e) v = elim (Option-cases (get_elem? s.threads i)) [
  | inl absent ↦ rw (absent, step) v
  | inr (t, found) ↦ rw (found, step) (moved t found)
]
  where
    moved :
        (t : Thread)
        → get_elem? s.threads i ≡ some t
        → IsConsistent
            (record { cnt = (act e s.cnt t).0; threads = set s.threads i (act e s.cnt t).1 })
    moved t found =
        let t' = (act e s.cnt t).1 in
        let r = readers s.threads - reads t in
        let w = writers s.threads - writes t in
        let others : readers s.threads < length s.threads + reads t =
          readers-lt s.threads i t found in
        let er : readers s.threads ≡ r + reads t =
          omega (arith, reads-le_readers s.threads i t found) in
        let ew : writers s.threads ≡ w + writes t =
          omega (arith, writes-le_writers s.threads i t found) in
        let er' : readers (set s.threads i t') ≡ r + reads t' =
          omega (arith, readers-set s.threads i t t' found) in
        let ew' : writers (set s.threads i t') ≡ w + writes t' =
          omega (arith, writers-set s.threads i t t' found) in
        let f = All-get s.threads i t v.faithful found in
        record {
          agrees =
              rw (er', ew')
                (act-Agrees e s.cnt r w t (omega (arith, v.few)) f (rw (er, ew) at v.agrees));
          faithful = All-set s.threads i t' v.faithful (act-IsFaithful e s.cnt t f);
          few = rw (length-set s.threads i t') v.few;
        }

pub run-IsConsistent :
    (s : System) (es : List (ℕ × Event)) → IsConsistent s → IsConsistent (run s es)
unfolding run
run-IsConsistent s [] v = v
run-IsConsistent s (e ∷ es) v = run-IsConsistent (step s e) es (step-IsConsistent s e v)

All-replicate : (n : ℕ) → All IsFaithful (replicate n outside)
All-replicate zero = tt
All-replicate (suc n) = (tt, All-replicate n)

length-replicate : (n : ℕ) → length (replicate n outside) ≡ n
length-replicate zero = refl
length-replicate (suc n) = ap suc (length-replicate n)

pub init-IsConsistent : (n : ℕ) → n < 32768 → IsConsistent (init n)
unfolding init
init-IsConsistent n h = record {
  agrees = inl (omega (arith, readers-replicate n), writers-replicate n);
  faithful = All-replicate n;
  few = rw (length-replicate n) h;
}

-- What a schedule from the unlocked latch keeps.
pub run-init-IsConsistent :
    (n : ℕ) (es : List (ℕ × Event)) → n < 32768 → IsConsistent (run (init n) es)
run-init-IsConsistent n es h = run-IsConsistent (init n) es (init-IsConsistent n h)

outside_of_counts : (t : Thread) → reads t ≡ 0 → writes t ≡ 0 → held t ≡ outside
outside_of_counts t p q = ground arith

-- After any schedule of fewer than 32768 threads from the unlocked latch: while one thread holds
-- the latch exclusively, every other thread holds nothing, and while one holds it shared, no
-- other holds it exclusively.
pub mutual_exclusion :
    (n : ℕ) (es : List (ℕ × Event)) (i j : ℕ) (t u : Thread)
    → n < 32768
    → i ≢ j
    → get_elem? (run (init n) es).threads i ≡ some t
    → get_elem? (run (init n) es).threads j ≡ some u
    → (held t ≡ writing → held u ≡ outside) × (held t ≡ reading → held u ≢ writing)
mutual_exclusion n es i j t u few d h k =
    let v = run-init-IsConsistent n es few in
    let ts = (run (init n) es).threads in
    let r = reads-two ts i j t u d h k in
    let w = writes-two ts i j t u d h k in
    let r' = reads-le_readers ts i t h in
    (
      λ e. outside_of_counts u (ground (arith, v.agrees, r, w)) (ground (arith, v.agrees, r, w)),
      λ e e'. ground (arith, v.agrees, r, w),
    )

-- After any schedule of fewer than 32768 threads from the unlocked latch: once no thread holds
-- the latch, the latch is unlocked again.
pub unlocked_again :
    (n : ℕ) (es : List (ℕ × Event))
    → n < 32768
    → All (λ t. held t ≡ outside) (run (init n) es).threads
    → is_locked (run (init n) es).cnt ≡ false
unfolding is_locked
unlocked_again n es few a =
    ground (arith, (run-init-IsConsistent n es few).agrees, counts_none (run (init n) es).threads a)
