-- ===== src/Expr/Conjunctions.antt =====
-- Splitting a conjunction into its parts, and combining parts into a conjunction.
use crusty_db.Prelude.{ℕ, ◌≡◌, refl, sym, List, [], ◌∷◌, ◌++◌, none, some, OrPanic, ◌>>=◌}
use crusty_db.Expr.{op_and, Expression, binary, split_conjunction, combine_preds}
use crusty_db.Expr.Bytecode.{Operators}
use crusty_db.Expr.Meaning.{meaning}

-- `and` of three values does not depend on how they are grouped, panics included.
abbrev pub IsAssociative : {T : Type 0} → (T → T → OrPanic T) → Type 0
IsAssociative {T} f = (a b c : T) → (f a b >>= λ x. f x c) ≡ (f b c >>= λ y. f a y)

module _ {T : Type 0} (ops : Operators T) (assoc : IsAssociative ops.both) where
  regroup :
      (x y z : OrPanic T)
      → (x >>= λ a. (y >>= λ b. z >>= λ c. ops.both b c) >>= λ d. ops.both a d)
        ≡ ((x >>= λ a. y >>= λ b. ops.both a b) >>= λ d. z >>= λ c. ops.both d c)
  regroup none y z = refl
  regroup (some a) none z = refl
  regroup (some a) (some b) none = go (ops.both a b)
    where
      none_T : OrPanic T
      none_T = none

      go : (u : OrPanic T) → none_T ≡ (u >>= λ d. none_T)
      go none = refl
      go (some d) = refl
  regroup (some a) (some b) (some c) = sym (assoc a b c)

module _ {T P : Type 0} (ops : Operators T) (assoc : IsAssociative ops.both) (one : T)
    (env : ℕ → OrPanic T) where
  meaning-append :
      (x : Expression T P) (xs : List (Expression T P)) (y : Expression T P)
      (ys : List (Expression T P))
      → meaning ops env (combine_preds one ((x ∷ xs) ++ (y ∷ ys))) ≡ (
          meaning ops env (combine_preds one (x ∷ xs)) >>= λ l.
          meaning ops env (combine_preds one (y ∷ ys)) >>= λ r. ops.both l r)
  unfolding combine_preds
  meaning-append x [] y ys = refl
  meaning-append x (x' ∷ xs) y ys = rw (meaning-append x' xs y ys) (
      regroup ops assoc (meaning ops env x) (meaning ops env (combine_preds one (x' ∷ xs)))
        (meaning ops env (combine_preds one (y ∷ ys))))

  split-cons :
      (e : Expression T P)
      → (x : Expression T P) × (xs : List (Expression T P)) × (split_conjunction e ≡ x ∷ xs)
  unfolding split_conjunction
  split-cons (binary op_and left right) =
      let (x, xs, e) = split-cons left in (x, xs ++ split_conjunction right, rw e refl)
  split-cons e = (e, [], refl)

  combined-split :
      (e : Expression T P)
      → meaning ops env (combine_preds one (split_conjunction e)) ≡ meaning ops env e
  unfolding combine_preds split_conjunction
  combined-split (binary op_and left right) =
      let (x, xs, e) = split-cons left in
      let (y, ys, e') = split-cons right in
      let l = combined-split left in
      let r = combined-split right in rw (e, e', meaning-append x xs y ys, ← e, ← e', l, r) refl
  combined-split e = refl

-- Where `and` is associative, the parts of a conjunction combined again mean what the conjunction
-- does, under every assignment of values to the columns.
pub combine-split_conjunction :
    {T P : Type 0} (ops : Operators T) (one : T) (env : ℕ → OrPanic T) (e : Expression T P)
    → IsAssociative ops.both
    → meaning ops env (combine_preds one (split_conjunction e)) ≡ meaning ops env e
combine-split_conjunction ops one env e assoc = combined-split ops assoc one env e
