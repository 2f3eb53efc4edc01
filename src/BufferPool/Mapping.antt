-- ===== src/BufferPool/Mapping.antt =====
-- buffer_pool.rs: `PageToFrame`, from the key of a page in memory to the index of its frame.
use crusty_db.Prelude.{
  ℕ, ◌==◌, ◌≡◌, ◌≢◌, ◌↔◌, refl, inl, inr, Bool, true, false, [], ◌∷◌, Option, none, some,
  if◌then◌else◌, OrPanic, Bool-cases, arith,
}
use crusty_db.BufferPool.{ContainerPageId, same_key, PageToFrame}

unfoldable pub get : PageToFrame → ContainerPageId → Option ℕ
get [] k = none
get ((k', i) ∷ m) k = if same_key k' k then some i else get m k

unfoldable pub contains_key : PageToFrame → ContainerPageId → Bool
contains_key [] k = false
contains_key ((k', i) ∷ m) k = if same_key k' k then true else contains_key m k

-- A key that is there already panics.
unfoldable pub insert : PageToFrame → ContainerPageId → ℕ → OrPanic PageToFrame
unfolding get
insert m k i = elim (get m k) [ none ↦ some ((k, i) ∷ m) | some j ↦ none ]

unfoldable pub erase : PageToFrame → ContainerPageId → PageToFrame
erase [] k = []
erase ((k', i) ∷ m) k = if same_key k' k then erase m k else ((k', i) ∷ erase m k)

-- `remove`: the value that was there, and the map without it.
unfoldable pub remove : PageToFrame → ContainerPageId → Option ℕ × PageToFrame
unfolding get erase
remove m k = (get m k, erase m k)

-- `iter_container`, the entries of a container; `get_page_frame_ids` lists the same entries as
-- page ids with their frames.
unfoldable pub iter_container : PageToFrame → ℕ → PageToFrame
iter_container [] c = []
iter_container ((k, i) ∷ m) c =
    if k.c_id == c then ((k, i) ∷ iter_container m c) else iter_container m c

pub same_key_iff : (a b : ContainerPageId) → (same_key a b ≡ true) ↔ (a ≡ b)
unfolding same_key
same_key_iff a b = ground arith

pub same_key_self : (a : ContainerPageId) → same_key a a ≡ true
unfolding same_key
same_key_self a = ground arith

pub get-erase_self : (m : PageToFrame) (k : ContainerPageId) → get (erase m k) k ≡ none
unfolding get erase
get-erase_self [] k = refl
get-erase_self ((k', i) ∷ m) k = elim (Bool-cases (same_key k' k)) [
  | inl e ↦ rw e (get-erase_self m k)
  | inr e ↦ rw (e, e) (get-erase_self m k)
]

pub get-erase_ne :
    (m : PageToFrame) (k k' : ContainerPageId) → k ≢ k' → get (erase m k) k' ≡ get m k'
unfolding get erase
get-erase_ne [] k k' ne = refl
get-erase_ne ((k₀, i) ∷ m) k k' ne =
    ground (arith, get-erase_ne m k k' ne, same_key_iff k₀ k, same_key_iff k₀ k')

pub contains_key_iff :
    (m : PageToFrame) (k : ContainerPageId) → (contains_key m k ≡ false) ↔ (get m k ≡ none)
unfolding get contains_key
contains_key_iff [] k = ground arith
contains_key_iff ((k', i) ∷ m) k = ground (arith, contains_key_iff m k)
