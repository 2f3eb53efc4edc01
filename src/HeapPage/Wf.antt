-- ===== src/HeapPage/Wf.antt =====
-- The well-formed layouts, and the moves between them: freeing a value, writing a value in a free
-- slot, shrinking a value in place, adding a slot.
use crusty_db.Prelude.{
  ℕ, zero, suc, ◌+◌, ◌-◌, ◌*◌, ◌≤◌, ◌<◌, ◌≡◌, ◌≢◌, refl, ◌⊎◌, ◌==◌, arith, if◌then◌else◌,
}
use crusty_db.HeapPage.Layout.{Layout, update}

-- The bytes in the first `n` slots, and how many of them are free.
abbrev pub total : (ℕ → ℕ) → ℕ → ℕ
total f zero = 0
total f (suc n) = total f n + f n

abbrev pub is_dead : ℕ → ℕ
is_dead x = if x == 0 then 1 else 0

abbrev pub dead : (ℕ → ℕ) → ℕ → ℕ
dead f zero = 0
dead f (suc n) = dead f n + is_dead (f n)

-- The values lie between the free space pointer and the end of the page and do not overlap, and
-- every byte there is in a value or counted as deleted.
pub record IsPacked (l : Layout) : Type 0 where
  pub header : 24 + l.slots * 4 ≤ l.fsp
  pub top : l.fsp ≤ 4096
  pub beyond : (i : ℕ) → l.slots ≤ i → l.len i ≡ 0
  pub inside : (i : ℕ) → 0 < l.len i → (l.fsp ≤ l.offset i) × (l.offset i + l.len i ≤ 4096)
  pub apart :
      (i j : ℕ)
      → i ≢ j
      → 0 < l.len i
      → 0 < l.len j
      → (l.offset i + l.len i ≤ l.offset j) ⊎ (l.offset j + l.len j ≤ l.offset i)
  pub accounted : total l.len l.slots + l.deleted_bytes + l.fsp ≡ 4096

-- And the count of deleted slots is right.
pub record IsWf (l : Layout) : Type 0 where
  pub packed : IsPacked l
  pub counted : dead l.len l.slots ≡ l.deleted_slots

pub total-update_beyond : (f : ℕ → ℕ) (s v n : ℕ) → n ≤ s → total (update f s v) n ≡ total f n
total-update_beyond f s v zero h = refl
total-update_beyond f s v (suc n) h = ground (arith, total-update_beyond f s v n)

pub total-update : (f : ℕ → ℕ) (s v n : ℕ) → s < n → total (update f s v) n + f s ≡ total f n + v
total-update f s v zero h = absurd (omega arith)
total-update f s v (suc n) h = ground (arith, total-update f s v n, total-update_beyond f s v n)

pub dead-update_beyond : (f : ℕ → ℕ) (s v n : ℕ) → n ≤ s → dead (update f s v) n ≡ dead f n
dead-update_beyond f s v zero h = refl
dead-update_beyond f s v (suc n) h = ground (arith, dead-update_beyond f s v n)

pub dead-update :
    (f : ℕ → ℕ) (s v n : ℕ) → s < n → dead (update f s v) n + is_dead (f s) ≡ dead f n + is_dead v
dead-update f s v zero h = absurd (omega arith)
dead-update f s v (suc n) h = ground (arith, dead-update f s v n, dead-update_beyond f s v n)

pub le-total : (f : ℕ → ℕ) (s n : ℕ) → s < n → f s ≤ total f n
le-total f s zero h = absurd (omega arith)
le-total f s (suc n) h = ground (arith, le-total f s n)

-- The numbers of the library are stuck at `n + 1`.
pub total-next : (f : ℕ → ℕ) (n : ℕ) → total f (n + 1) ≡ total f n + f n
total-next f n = let e : n + 1 ≡ suc n = omega arith in rw e refl

pub dead-next : (f : ℕ → ℕ) (n : ℕ) → dead f (n + 1) ≡ dead f n + is_dead (f n)
dead-next f n = let e : n + 1 ≡ suc n = omega arith in rw e refl

-- The value of slot `s` goes; its space is above the pointer, or becomes a hole.
abbrev pub freed : Layout → ℕ → Layout
freed l s =
    let top = l.offset s == l.fsp in
    record l {
      fsp = if top then l.offset s + l.len s else l.fsp;
      deleted_bytes = if top then l.deleted_bytes else l.deleted_bytes + l.len s;
      len = update l.len s 0;
    }

-- A value of `n` bytes is written in slot `s`, below the pointer.
abbrev pub written : Layout → ℕ → ℕ → Layout
written l s n = record l {
  fsp = l.fsp - n;
  offset = update l.offset s (l.fsp - n);
  len = update l.len s n;
}

-- The value of slot `s` shrinks to `n` bytes where it is.
abbrev pub shrunk : Layout → ℕ → ℕ → Layout
shrunk l s n = record l { deleted_bytes = l.deleted_bytes + (l.len s - n); len = update l.len s n }

pub lt-slots : (l : Layout) (s : ℕ) → IsPacked l → 0 < l.len s → s < l.slots
lt-slots l s v h = ground (arith, v.beyond s)

module _ (l : Layout) (s : ℕ) (v : IsPacked l) where
  pub freed-IsPacked : 0 < l.len s → IsPacked (freed l s)
  freed-IsPacked h = record {
    header = ground (arith, v.inside s, v.header);
    top = ground (arith, v.inside s, v.top);
    beyond = λ i p. ground (arith, v.beyond i);
    inside = λ i p. ground (arith, v.inside i, v.inside s, v.apart i s);
    apart = λ i j d p q. ground (arith, v.apart i j d);
    accounted =
        ground (arith, v.accounted, total-update l.len s 0 l.slots (lt-slots l s v h), v.inside s);
  }

  pub written-IsPacked :
      (n : ℕ) → s < l.slots → l.len s ≡ 0 → 24 + l.slots * 4 + n ≤ l.fsp → IsPacked (written l s n)
  written-IsPacked n h e fits = record {
    header = omega (arith, v.header);
    top = omega (arith, v.top);
    beyond = λ i p. ground (arith, v.beyond i);
    inside = λ i p. ground (arith, v.inside i, v.top);
    apart = λ i j d p q. ground (arith, v.apart i j d, v.inside i, v.inside j);
    accounted = ground (arith, v.accounted, total-update l.len s n l.slots h);
  }

  pub shrunk-IsPacked : (n : ℕ) → 0 < l.len s → n ≤ l.len s → IsPacked (shrunk l s n)
  shrunk-IsPacked n h le = record {
    header = v.header;
    top = v.top;
    beyond = λ i p. ground (arith, v.beyond i, v.beyond s);
    inside = λ i p. ground (arith, v.inside i, v.inside s);
    apart = λ i j d p q. ground (arith, v.apart i j d);
    accounted = ground (arith, v.accounted, total-update l.len s n l.slots (lt-slots l s v h));
  }

pub claimed-IsPacked :
    (l : Layout)
    → IsPacked l
    → 24 + l.slots * 4 + 4 ≤ l.fsp
    → IsPacked (record l { slots = l.slots + 1 })
claimed-IsPacked l v h = record {
  header = omega arith;
  top = v.top;
  beyond = λ i p. v.beyond i (omega arith);
  inside = v.inside;
  apart = v.apart;
  accounted = ground (arith, v.accounted, v.beyond l.slots, total-next l.len l.slots);
}

pub dead-le : (f : ℕ → ℕ) (n : ℕ) → dead f n ≤ n
dead-le f zero = omega arith
dead-le f (suc n) = ground (arith, dead-le f n)

pub dead-ext : (f g : ℕ → ℕ) (n : ℕ) → ((i : ℕ) → f i ≡ g i) → dead f n ≡ dead g n
dead-ext f g zero h = refl
dead-ext f g (suc n) h = ground (arith, h n, dead-ext f g n h)

pub total-ext : (f g : ℕ → ℕ) (n : ℕ) → ((i : ℕ) → f i ≡ g i) → total f n ≡ total g n
total-ext f g zero h = refl
total-ext f g (suc n) h = ground (arith, h n, total-ext f g n h)

pub total_zero : (f : ℕ → ℕ) (n : ℕ) → ((i : ℕ) → f i ≡ 0) → total f n ≡ 0
total_zero f zero h = refl
total_zero f (suc n) h = ground (arith, h n, total_zero f n h)

pub dead_pos : (f : ℕ → ℕ) (s n : ℕ) → s < n → f s ≡ 0 → 0 < dead f n
dead_pos f s zero h e = absurd (omega arith)
dead_pos f s (suc n) h e = ground (arith, dead_pos f s n)
