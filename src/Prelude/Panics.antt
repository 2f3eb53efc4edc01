-- ===== src/Prelude/Panics.antt =====
-- Code that may panic: `none` is a panic (an index out of bounds, an overflow, a failed `unwrap`).
use mathlib.Core.Bool.{Bool, true, false}
use mathlib.Core.Option.{Option, none, some}

abbrev pub OrPanic {ℓ} : Type ℓ → Type ℓ
OrPanic A = Option A

infixl 5 ◌>>=◌ ◌>>◌
abbrev pub ◌>>=◌ {ℓ κ} : {A : Type ℓ} {B : Type κ} → Option A → (A → Option B) → Option B
none >>= f = none
some a >>= f = f a

abbrev pub ◌>>◌ {ℓ} : {B : Type ℓ} → Option (Unit {0}) → Option B → Option B
m >> k = m >>= λ _. k

-- A check of the language at run time: bounds, overflow, `assert!`.
abbrev pub check : Bool → Option (Unit {0})
check true = some tt
check false = none
