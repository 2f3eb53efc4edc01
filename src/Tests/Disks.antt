-- ===== src/Tests/Disks.antt =====
-- A disk that is a list of the pages written, the last first, and two pools on it.
use crusty_db.Prelude.{
  ℕ, ◌*◌, ◌<◌, ◌==◌, ◌&&◌, ◌≡◌, ◌≢◌, refl, sym, ◌∙◌, ltb→lt, ◌⊎◌, inl, inr, Bool, true, false, List,
  [], ◌∷◌, Option, none, some, ltb, lt→ltb, if◌then◌else◌, arith, ==_iff, Bool-cases,
}
use crusty_db.Bytes.{Array}
use crusty_db.BaseFile.{Disk, IsDisk, page_size, num_pages}
use crusty_db.BufferPool.{ContainerPageId, BufferFrame, BufferPool, Container, new_pool}
use crusty_db.Tests.Pages.{one_value, one_value-page_id, zeros}
use crusty_db.BufferPool.{new_frame, set_frame}
use crusty_db.BufferPool.Mapping.{get}
use crusty_db.BufferPool.Starting.{new_pool-IsPool}
use crusty_db.BufferPool.Framing.{without}
use crusty_db.BufferPool.Placing.{given-IsPool, given-Holds_self}
use crusty_db.BufferPool.Writing.{Works}
use crusty_db.BufferPool.Invariant.{IsPool, IsRegistered, IsPersistent, Holds}

abbrev pub Pages : Type 0
Pages = List (ℕ × ℕ × Array)

unfoldable pub find : Pages → ℕ → ℕ → Option Array
find [] c off = none
find ((c', off', a) ∷ d) c off = if c' == c && off' == off then some a else find d c off

-- Every file has all the pages that it may have.
abbrev pub last_page : ℕ
last_page = 4294967295

unfoldable pub whole : Option Array → Array → Bool × Array
whole none b = (false, b)
whole (some a) b = (true, a)

unfoldable pub memory : Disk Pages
unfolding find whole
memory = record {
  fstat = λ d c. last_page * page_size;
  pread = λ d c off b. whole (find d c off) b;
  pwrite =
      λ d c off a. if ltb off (last_page * page_size) then (true, (c, off, a) ∷ d) else (false, d);
}

self : (n : ℕ) → (n == n) ≡ true
self n = ground arith

apart : (c p c' p' : ℕ) → (c ≢ c') ⊎ (p ≢ p') → (c == c' && p * page_size == p' * page_size) ≡ false
apart c p c' p' (inl ne) = ground (arith, ne)
apart c p c' p' (inr ne) = elim (Bool-cases (p * page_size == p' * page_size)) [
  | inl e ↦ absurd (ne (omega (arith, (==_iff (p * page_size) (p' * page_size)).0 e)))
  | inr e ↦ ground (arith, e)
]

in_range :
    (d : Pages) (c off : ℕ) (a : Array)
    → (memory.pwrite d c off a).0 ≡ true
    → off < last_page * page_size
unfolding memory
in_range d c off a e = elim (Bool-cases (ltb off (last_page * page_size))) [
  | inl fits ↦ ltb→lt off (last_page * page_size) fits
  | inr beyond ↦
      let step : (memory.pwrite d c off a).0 ≡ false = rw beyond refl in absurd (cc (sym step ∙ e))
]

pub memory-IsDisk : IsDisk memory
unfolding memory find whole num_pages
memory-IsDisk = record {
  reads_back = λ d c off a e b.
      rw (lt→ltb off (last_page * page_size) (in_range d c off a e), self c, self off) refl;
  reads_other = λ d c p a c' p' a' ne h b.
      elim (Bool-cases (ltb (p * page_size) (last_page * page_size))) [
        | inl fits ↦ rw (fits, apart c p c' p' ne) (h b)
        | inr beyond ↦ rw beyond (h b)
      ];
  small = λ d c. omega arith;
  reaches = λ d c p a e. omega (arith, in_range d c (p * page_size) a e);
  stays = λ d c p a c'. omega arith;
}

pub memory-Works : Works memory
unfolding memory
memory-Works d c p a few =
    rw (lt→ltb (p * page_size) (last_page * page_size) (omega (arith, few))) refl

-- Container 1 has two pages, the second a heap page with one value.
abbrev pub table : Container
table = record { page_count = 2; is_temp = false }

abbrev pub catalog : ℕ → Option Container
catalog c = if c == 1 then some table else none

abbrev pub second : ContainerPageId
second = record { c_id = 1; page_id = 1 }

abbrev pub fresh_pool : BufferPool Pages
fresh_pool = new_pool 2 catalog ((1, 4096, one_value) ∷ (1, 0, zeros) ∷ [])

pub fresh_pool-IsPool : IsPool memory fresh_pool
fresh_pool-IsPool = new_pool-IsPool memory 2 catalog ((1, 4096, one_value) ∷ (1, 0, zeros) ∷ [])

pub fresh_pool-Holds : Holds memory fresh_pool second one_value
unfolding memory find whole new_pool get num_pages
fresh_pool-Holds = (λ b. refl, one_value-page_id, omega arith)

pub fresh-IsRegistered : IsRegistered fresh_pool second
unfolding new_pool
fresh-IsRegistered = (table, refl, omega arith)

pub fresh-IsPersistent : IsPersistent fresh_pool 1
unfolding new_pool
fresh-IsPersistent = (table, refl, refl)

-- The page in memory, written but not in its file.
abbrev pub dirty_frame : BufferFrame
dirty_frame = record { latch = 0; is_dirty = true; key = some second; page = one_value }

abbrev stale_pool : BufferPool Pages
stale_pool = new_pool 2 catalog ((1, 4096, zeros) ∷ (1, 0, zeros) ∷ [])

stale_pool-IsPool : IsPool memory stale_pool
stale_pool-IsPool = new_pool-IsPool memory 2 catalog ((1, 4096, zeros) ∷ (1, 0, zeros) ∷ [])

abbrev pub dirty_pool : BufferPool Pages
dirty_pool = record (set_frame 0 dirty_frame stale_pool) {
  page_to_frame = (second, 0) ∷ without (stale_pool.frames 0).key stale_pool.page_to_frame;
}

pub dirty_pool-IsPool : IsPool memory dirty_pool
unfolding new_pool get
dirty_pool-IsPool =
    given-IsPool memory stale_pool stale_pool-IsPool 0 second dirty_frame (omega arith) refl refl
      (table, refl, omega arith)
      (
        λ e. absurd cc,
        λ e. absurd cc,
        λ k e.
            let same : second ≡ k = ground (arith, e) in
            rw (sym same) (one_value-page_id, omega arith),
      )

pub dirty_pool-Holds : Holds memory dirty_pool second one_value
dirty_pool-Holds = given-Holds_self memory stale_pool stale_pool-IsPool 0 second dirty_frame

pub dirty-IsRegistered : IsRegistered dirty_pool second
unfolding new_pool set_frame
dirty-IsRegistered = (table, refl, omega arith)

pub dirty-IsPersistent : IsPersistent dirty_pool 1
unfolding new_pool set_frame
dirty-IsPersistent = (table, refl, refl)

pub dirty_latches : (j : ℕ) → j < dirty_pool.num_frames → (dirty_pool.frames j).latch ≡ 0
unfolding new_pool set_frame new_frame
dirty_latches j b = ground arith
