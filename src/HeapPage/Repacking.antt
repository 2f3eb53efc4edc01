-- ===== src/HeapPage/Repacking.antt =====
-- Step 3 of `compact_page`: the loop that writes the values back.
use crusty_db.Prelude.{
  ℕ, ◌+◌, ◌-◌, ◌*◌, ◌<◌, ◌≤◌, ◌≡◌, ◌≢◌, refl, ◌∙◌, ap, ◌⊎◌, inl, inr, List, [], ◌∷◌, none, some,
  ◌==◌, length, arith, Bool-cases, le→leb,
}
use crusty_db.Bytes.{Array, slice, copy, to_le_bytes}
use crusty_db.Bytes.Laws.{copy_outside, slice-copy_self, slice-copy_outside, slice-ext}
use crusty_db.HeapPage.Header.{put_u16, write_u16, get_num_slots}
use crusty_db.HeapPage.Space.{repack}
use crusty_db.HeapPage.Layout.{Layout, layout, update, layout-copy, layout-put_offset, slots-eq}
use crusty_db.HeapPage.Sorting.{find, Distinct, sizes, Below}

-- From `hi` down, each value of the list lies just below the one before, where its slot says.
abbrev pub Stacked : Array → ℕ → List (ℕ × List ℕ) → Type 0
Stacked q hi [] = Unit {0}
Stacked q hi ((i, b) ∷ l) =
    ((layout q).offset i ≡ hi - length b)
    × (slice q (hi - length b) (length b) ≡ b)
    × Stacked q (hi - length b) l

pub Stacked-find :
    (q : Array) (hi : ℕ) (l : List (ℕ × List ℕ)) (k : ℕ) (b : List ℕ)
    → Stacked q hi l
    → sizes l ≤ hi
    → find k l ≡ some b
    → (hi - sizes l ≤ (layout q).offset k)
      × ((layout q).offset k + length b ≤ hi)
      × (slice q ((layout q).offset k) (length b) ≡ b)
Stacked-find q hi [] k b s h e = absurd (ground arith)
Stacked-find q hi ((i, c) ∷ l) k b s h e = elim (Bool-cases (i == k)) [
  | inl same ↦
      let ei : i ≡ k = ground (arith, same) in
      let ec : c ≡ b = ground (arith, same, e) in
      rw (← ei, ← ec, s.0) (omega arith, omega arith, s.1)
  | inr other ↦
      let (lo, up, bytes) =
        Stacked-find q (hi - length c) l k b s.2 (omega arith) (ground (arith, other)) in
      (omega (arith, lo), omega (arith, up), bytes)
]

pub Stacked-apart :
    (q : Array) (hi : ℕ) (l : List (ℕ × List ℕ)) (j k : ℕ) (b c : List ℕ)
    → Stacked q hi l
    → sizes l ≤ hi
    → j ≢ k
    → find j l ≡ some b
    → find k l ≡ some c
    → ((layout q).offset j + length b ≤ (layout q).offset k)
      ⊎ ((layout q).offset k + length c ≤ (layout q).offset j)
Stacked-apart q hi [] j k b c s h d e f = absurd (ground arith)
Stacked-apart q hi ((i, x) ∷ l) j k b c s h d e f = ground (
  arith,
  s.0,
  Stacked-find q (hi - length x) l j b s.2,
  Stacked-find q (hi - length x) l k c s.2,
  Stacked-apart q (hi - length x) l j k b c s.2,
)

-- One round of the loop.
placed : Array → ℕ → ℕ → List ℕ → Array
placed p i fsp b = put_u16 (copy p fsp b) (24 + i * 4) fsp

layout-placed :
    (p : Array) (i fsp : ℕ) (b : List ℕ)
    → i < get_num_slots p
    → 24 + get_num_slots p * 4 ≤ fsp
    → fsp < 65536
    → layout (placed p i fsp b) ≡ record (layout p) { offset = update (layout p).offset i fsp }
unfolding placed
layout-placed p i fsp b h k u =
    let z : Array = copy p fsp b in
    let e = layout-copy p fsp b k in
    layout-put_offset z i fsp (rw (slots-eq z p e) h) u
    ∙ ap (λ (l : Layout). record l { offset = update l.offset i fsp }) e

placed_slots :
    (p : Array) (i fsp : ℕ) (b : List ℕ)
    → i < get_num_slots p
    → 24 + get_num_slots p * 4 ≤ fsp
    → fsp < 65536
    → get_num_slots (placed p i fsp b) ≡ get_num_slots p
unfolding layout
placed_slots p i fsp b h k u = ap (λ (l : Layout). l.slots) (layout-placed p i fsp b h k u)

-- The loop over `l` from `fsp` does not panic, moves only the offsets of the slots in `l`, writes
-- below `fsp` only, and stacks the values.
pub record Repacked (p q : Array) (fsp : ℕ) (l : List (ℕ × List ℕ)) : Type 0 where
  pub same : layout q ≡ record (layout p) { offset = (layout q).offset }
  pub unmoved : (k : ℕ) → find k l ≡ none → (layout q).offset k ≡ (layout p).offset k
  pub above : (k : ℕ) → fsp ≤ k → q k ≡ p k
  pub stacked : Stacked q fsp l
  pub front : (k : ℕ) → k < 16 → q k ≡ p k

placed_front :
    (p : Array) (i fsp : ℕ) (b : List ℕ) (k : ℕ) → k < 16 → 16 ≤ fsp → placed p i fsp b k ≡ p k
unfolding placed put_u16
placed_front p i fsp b k h o =
    copy_outside (copy p fsp b) (24 + i * 4) (to_le_bytes 2 fsp) k (inl (omega arith))
    ∙ copy_outside p fsp b k (inl (omega arith))

placed_above :
    (p : Array) (i fsp : ℕ) (b : List ℕ) (k : ℕ)
    → 24 + i * 4 + 2 ≤ fsp
    → fsp + length b ≤ k
    → placed p i fsp b k ≡ p k
unfolding placed put_u16
placed_above p i fsp b k h o =
    copy_outside (copy p fsp b) (24 + i * 4) (to_le_bytes 2 fsp) k (inr (omega arith))
    ∙ copy_outside p fsp b k (inr o)

placed_value :
    (p : Array) (i fsp : ℕ) (b : List ℕ)
    → 24 + i * 4 + 2 ≤ fsp
    → slice (placed p i fsp b) fsp (length b) ≡ b
unfolding placed put_u16
placed_value p i fsp b h =
    slice-copy_outside (copy p fsp b) (24 + i * 4) (to_le_bytes 2 fsp) fsp (length b)
      (inr (omega arith))
    ∙ slice-copy_self p fsp b

place_lem :
    (p : Array) (i fsp : ℕ) (b : List ℕ)
    → 24 + i * 4 + 2 ≤ 4096
    → write_u16 (copy p fsp b) (24 + i * 4) fsp ≡ some (placed p i fsp b)
unfolding write_u16 placed
place_lem p i fsp b h = rw (le→leb (24 + i * 4 + 2) 4096 h)

-- One round, and the rounds after it.
Repacked-cons :
    (p q : Array) (i fsp : ℕ) (c : List ℕ) (l : List (ℕ × List ℕ))
    → i < get_num_slots p
    → find i l ≡ none
    → length c ≤ fsp
    → fsp ≤ 4096
    → 24 + get_num_slots p * 4 ≤ fsp - length c
    → Repacked (placed p i (fsp - length c) c) q (fsp - length c) l
    → Repacked p q fsp ((i, c) ∷ l)
Repacked-cons p q i fsp c l hi new le u low r =
    let nf : ℕ = fsp - length c in
    let e = layout-placed p i nf c hi low (omega arith) in
    let off : (k : ℕ) → (layout (placed p i nf c)).offset k ≡ update (layout p).offset i nf k =
      λ k. ap (λ (m : Layout). m.offset k) e in
    record {
      same = r.same ∙ ap (λ (m : Layout). record m { offset = (layout q).offset }) e;
      unmoved = λ k g. ground (arith, r.unmoved k, off k);
      above = λ k g. r.above k (omega arith) ∙ placed_above p i nf c k (omega arith) (omega arith);
      stacked = (
        ground (arith, r.unmoved i new, off i),
        slice-ext q (placed p i nf c) nf (length c) (λ j a b. r.above j a)
            ∙ placed_value p i nf c (omega arith),
        r.stacked,
      );
      front = λ k a. r.front k a ∙ placed_front p i nf c k a (omega arith);
    }

pub repack_lem :
    (p : Array) (fsp : ℕ) (l : List (ℕ × List ℕ))
    → Below (get_num_slots p) l
    → Distinct l
    → fsp ≤ 4096
    → 24 + get_num_slots p * 4 + sizes l ≤ fsp
    → (q : Array) × (repack p fsp l ≡ some (q, fsp - sizes l)) × Repacked p q fsp l
unfolding repack
repack_lem p fsp [] b d u h = (
  p,
  ap (λ (n : ℕ). some (p, n)) (omega arith),
  record {
    same = refl;
    unmoved = λ k e. refl;
    above = λ k e. refl;
    stacked = tt;
    front = λ k a. refl;
  },
)
repack_lem p fsp ((i, c) ∷ l) b d u h =
    let nf : ℕ = fsp - length c in
    let p' : Array = placed p i nf c in
    let ns : get_num_slots p' ≡ get_num_slots p =
      placed_slots p i nf c b.0 (omega arith) (omega arith) in
    let (q, ran, r) = repack_lem p' nf l (rw ns b.1) d.1 (omega arith) (omega arith) in
    (
      q,
      rw (le→leb (length c) fsp (omega arith), place_lem p i nf c (omega arith), ran)
          (ap (λ (n : ℕ). some (q, n)) (omega arith)),
      Repacked-cons p q i fsp c l b.0 d.0 (omega arith) u (omega arith) r,
    )
