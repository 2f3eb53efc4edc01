-- ===== src/Ids/Codec.antt =====
-- The byte formats of a value id are read back.
use crusty_db.Prelude.{ℕ, ◌<◌, ◌^◌, ◌≡◌, refl, ◌≢◌, length, ◌↔◌, List, Option, none, some, arith}
use crusty_db.Ids.{ValueId, to_bytes, from_bytes, to_fixed_bytes, to_cp_bytes}

-- An optional field fits its width.
abbrev pub Fits : ℕ → Option ℕ → Type 0
Fits w none = Unit {0}
Fits w (some x) = x < 256 ^ w

-- Each field of a value id is a number of its Rust type.
pub record IsValueId (v : ValueId) : Type 0 where
  pub container : v.container_id < 256 ^ 2
  pub segment : Fits 1 v.segment_id
  pub page : Fits 4 v.page_id
  pub slot : Fits 2 v.slot_id

-- What `to_bytes` writes, `from_bytes` reads back, and does not panic.
pub from-to_bytes : (v : ValueId) → IsValueId v → from_bytes (to_bytes v) ≡ some v
unfolding from_bytes to_bytes
from-to_bytes v w = go v.segment_id v.page_id v.slot_id w.container w.segment w.page w.slot
  where
    go :
        (g p s : Option ℕ)
        → v.container_id < 256 ^ 2
        → Fits 1 g
        → Fits 4 p
        → Fits 2 s
        → from_bytes (
            to_bytes
              (record { container_id = v.container_id; segment_id = g; page_id = p; slot_id = s }))
          ≡ some
              (record { container_id = v.container_id; segment_id = g; page_id = p; slot_id = s })
    go none none none hc hg hp hs = ground arith
    go none none (some s) hc hg hp hs = ground arith
    go none (some p) none hc hg hp hs = ground arith
    go none (some p) (some s) hc hg hp hs = ground arith
    go (some g) none none hc hg hp hs = ground arith
    go (some g) none (some s) hc hg hp hs = ground arith
    go (some g) (some p) none hc hg hp hs = ground arith
    go (some g) (some p) (some s) hc hg hp hs = ground arith

-- `to_fixed_bytes` panics on a value id with a segment; without one it writes ten bytes, which
-- `from_bytes` reads back.
pub from-to_fixed_bytes :
    (v : ValueId)
    → IsValueId v
    → (v.segment_id ≢ none → to_fixed_bytes v ≡ none)
      × (v.segment_id ≡ none
          → (bs : List ℕ) × (to_fixed_bytes v ≡ some bs)
            × (length bs ≡ 10)
            × (from_bytes bs ≡ some v))
unfolding from_bytes to_fixed_bytes
from-to_fixed_bytes v w = go v.segment_id v.page_id v.slot_id w.container w.segment w.page w.slot
  where
    go :
        (g p s : Option ℕ)
        → v.container_id < 256 ^ 2
        → Fits 1 g
        → Fits 4 p
        → Fits 2 s
        → let u : ValueId = record {
          container_id = v.container_id;
          segment_id = g;
          page_id = p;
          slot_id = s;
        } in
          (g ≢ none → to_fixed_bytes u ≡ none)
          × (g ≡ none
              → (bs : List ℕ) × (to_fixed_bytes u ≡ some bs)
                × (length bs ≡ 10)
                × (from_bytes bs ≡ some u))
    go none none none hc hg hp hs = (λ h. absurd (h refl), λ h. (_, refl, refl, ground arith))
    go none none (some s) hc hg hp hs = (λ h. absurd (h refl), λ h. (_, refl, refl, ground arith))
    go none (some p) none hc hg hp hs = (λ h. absurd (h refl), λ h. (_, refl, refl, ground arith))
    go none (some p) (some s) hc hg hp hs =
        (λ h. absurd (h refl), λ h. (_, refl, refl, ground arith))
    go (some g) p s hc hg hp hs = (λ h. refl, λ h. cc)

-- `to_cp_bytes` tells value ids apart exactly by container and page.
pub to_cp_bytes_iff :
    (v w : ValueId)
    → IsValueId v
    → IsValueId w
    → (to_cp_bytes v ≡ to_cp_bytes w)
      ↔ ((v.container_id ≡ w.container_id) × (v.page_id ≡ w.page_id))
unfolding to_cp_bytes
to_cp_bytes_iff v w hv hw = go v.page_id w.page_id hv.page hw.page
  where
    go :
        (p q : Option ℕ)
        → Fits 4 p
        → Fits 4 q
        → (to_cp_bytes (record v { page_id = p }) ≡ to_cp_bytes (record w { page_id = q }))
          ↔ ((v.container_id ≡ w.container_id) × (p ≡ q))
    go none none hp hq = (λ e. ground (arith, hv.container, hw.container), λ e. ground arith)
    go none (some q) hp hq = (λ e. ground arith, λ e. ground arith)
    go (some p) none hp hq = (λ e. ground arith, λ e. ground arith)
    go (some p) (some q) hp hq =
        (λ e. ground (arith, hv.container, hw.container), λ e. ground arith)
