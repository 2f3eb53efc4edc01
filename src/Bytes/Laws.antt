-- ===== src/Bytes/Laws.antt =====
-- Laws of slices and copies, and of little-endian numbers.
use native.Mathlib.Nat.{pow-suc}
use crusty_db.Prelude.{
  ℕ, zero, suc, ◌+◌, ◌*◌, ◌/◌, ◌^◌, ◌≤◌, ◌<◌, ◌≡◌, refl, ap, ◌⊎◌, inl, inr, List, [], ◌∷◌, length,
  arith, replicate,
}
use crusty_db.Bytes.{Array, to_le_bytes, from_le_bytes, slice, copy}

pub copy_outside :
    (a : Array) (i : ℕ) (bs : List ℕ) (j : ℕ) → (j < i) ⊎ (i + length bs ≤ j) → copy a i bs j ≡ a j
copy_outside a i [] j h = refl
copy_outside a i (b ∷ bs) j h = ground (arith, copy_outside a (i + 1) bs j)

pub slice-ext :
    (a b : Array) (i n : ℕ) → ((j : ℕ) → i ≤ j → j < i + n → a j ≡ b j) → slice a i n ≡ slice b i n
slice-ext a b i zero h = refl
slice-ext a b i (suc n) h = ground (
  arith,
  h i (omega arith) (omega arith),
  slice-ext a b (i + 1) n (λ j p q. h j (omega arith) (omega arith)),
)

-- A copy leaves the slices that it does not meet.
pub slice-copy_outside :
    (a : Array) (i : ℕ) (bs : List ℕ) (j n : ℕ)
    → (j + n ≤ i) ⊎ (i + length bs ≤ j)
    → slice (copy a i bs) j n ≡ slice a j n
slice-copy_outside a i bs j n h = slice-ext (copy a i bs) a j n (λ k p q.
    copy_outside a i bs k (elim h [ inl l ↦ inl (omega arith) | inr r ↦ inr (omega arith) ]))

pub slice-copy_self : (a : Array) (i : ℕ) (bs : List ℕ) → slice (copy a i bs) i (length bs) ≡ bs
slice-copy_self a i [] = refl
slice-copy_self a i (b ∷ bs) = ground (
  arith,
  slice-copy_self a (i + 1) bs,
  slice-ext (copy a i (b ∷ bs)) (copy a (i + 1) bs) (i + 1) (length bs) (λ j p q. ground arith),
)

pub length-slice : (a : Array) (i n : ℕ) → length (slice a i n) ≡ n
length-slice a i zero = refl
length-slice a i (suc n) = ap suc (length-slice a (i + 1) n)

pub length-replicate {ℓ} : {A : Type ℓ} (n : ℕ) (x : A) → length (replicate n x) ≡ n
length-replicate zero x = refl
length-replicate (suc n) x = ap suc (length-replicate n x)

-- `from_le_bytes` after `to_le_bytes`, of a number that fits `w` bytes.
pub from-to_le_bytes : (w n : ℕ) → n < 256 ^ w → from_le_bytes (to_le_bytes w n) ≡ n
from-to_le_bytes zero n h = omega arith
from-to_le_bytes (suc w) n h =
    let h' : n < 256 ^ w * 256 = rw (← pow-suc) h in
    omega (arith, from-to_le_bytes w (n / 256) (omega arith))

pub length-to_le_bytes : (w n : ℕ) → length (to_le_bytes w n) ≡ w
length-to_le_bytes zero n = refl
length-to_le_bytes (suc w) n = ap suc (length-to_le_bytes w (n / 256))
