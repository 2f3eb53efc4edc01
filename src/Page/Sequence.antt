-- ===== src/Page/Sequence.antt =====
-- page.rs: the log sequence number only grows.
use mathlib.Core.Path.{subst}
use crusty_db.Prelude.{
  ℕ, ◌^◌, ◌≤◌, ◌<◌, ◌≡◌, refl, sym, ◌⊎◌, inl, inr, if◌then◌else◌, arith, Bool-cases, ◌∙◌,
}
use crusty_db.Bytes.{Array}
use crusty_db.Ids.{Lsn, lsn_lt}
use crusty_db.Page.{write_le, get_lsn, set_lsn}
use crusty_db.Page.Fields.{read-write_self, read-write_outside, write_outside}

-- The larger of two log sequence numbers.
abbrev pub lsn_max : Lsn → Lsn → Lsn
lsn_max a b = if lsn_lt a b then b else a

-- The order by pages first, and by slots on one page.
abbrev pub Precedes : Lsn → Lsn → Type 0
Precedes a b = (a.page_id < b.page_id) ⊎ (a.page_id ≡ b.page_id) × (a.slot_id ≤ b.slot_id)

pub Precedes-lsn_max : (a b : Lsn) → Precedes a (lsn_max a b) × Precedes b (lsn_max a b)
unfolding lsn_lt
Precedes-lsn_max a b = elim (Bool-cases (lsn_lt a b)) [
  | inl e ↦ rw e (ground (arith, e))
  | inr e ↦ rw e (ground (arith, e))
]

-- After `set_lsn` with a log sequence number of 32 and 16 bits, the page's is the larger of the
-- two, which neither of them exceeds; the page id, the checksum and the bytes outside stay.
pub get-set_lsn :
    (p : Array) (lsn : Lsn)
    → lsn.page_id < 256 ^ 4
    → lsn.slot_id < 256 ^ 2
    → (get_lsn (set_lsn p lsn) ≡ lsn_max (get_lsn p) lsn)
      × Precedes (get_lsn p) (get_lsn (set_lsn p lsn))
      × Precedes lsn (get_lsn (set_lsn p lsn))
      × ((j : ℕ) → (j < 4) ⊎ (10 ≤ j) → set_lsn p lsn j ≡ p j)
unfolding set_lsn get_lsn
get-set_lsn p lsn hp hs =
    let stored = larger in
    let (a, b) = Precedes-lsn_max (get_lsn p) lsn in
    (
      stored,
      subst (λ m. Precedes (get_lsn p) m) (sym stored) a,
      subst (λ m. Precedes lsn m) (sym stored) b,
      outside,
    )
  where
    q : Array
    q = write_le 4 p 4 lsn.page_id

    larger : get_lsn (set_lsn p lsn) ≡ lsn_max (get_lsn p) lsn
    larger = elim (Bool-cases (lsn_lt (get_lsn p) lsn)) [
      | inl e ↦
          rw
            (
              e,
              read-write_outside 2 (write_le 4 p 4 lsn.page_id) 8 lsn.slot_id 4 4 (omega arith),
              read-write_self 4 p 4 lsn.page_id hp,
              read-write_self 2 (write_le 4 p 4 lsn.page_id) 8 lsn.slot_id hs,
            )
            refl
      | inr e ↦ rw e refl
    ]

    outside : (j : ℕ) → (j < 4) ⊎ (10 ≤ j) → set_lsn p lsn j ≡ p j
    outside j h = elim (Bool-cases (lsn_lt (get_lsn p) lsn)) [
      | inl e ↦ rw e (
          write_outside 2 (write_le 4 p 4 lsn.page_id) 8 lsn.slot_id j (ground (arith, h))
          ∙ write_outside 4 p 4 lsn.page_id j (ground (arith, h)))
      | inr e ↦ rw e refl
    ]
