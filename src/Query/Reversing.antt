-- ===== src/Query/Reversing.antt =====
-- Lists in reverse.
use mathlib.Core.List.{
  Mem, Perm, Pairwise, Pairwise-singleton, perm_append_singleton, append-nil, map-append,
  append_assoc, mem-cons_self, mem-cons_of_mem, forall_mem-cons,
}
use mathlib.Core.List.Perm
use crusty_db.Prelude.{◌≡◌, refl, sym, ◌∙◌, ap, List, [], ◌∷◌, ◌++◌, map}
use crusty_db.Query.TupleIterator.{reverse}

module _ {A : Type 0} where
  reverse-append : (xs ys : List A) → reverse (xs ++ ys) ≡ reverse ys ++ reverse xs
  reverse-append [] ys = sym (append-nil (reverse ys))
  reverse-append (x ∷ xs) ys =
      ap (λ l. l ++ (x ∷ [])) (reverse-append xs ys)
      ∙ append_assoc (reverse ys) (reverse xs) (x ∷ [])

  pub reverse-reverse : (xs : List A) → reverse (reverse xs) ≡ xs
  reverse-reverse [] = refl
  reverse-reverse (x ∷ xs) =
      reverse-append (reverse xs) (x ∷ []) ∙ ap (λ l. x ∷ l) (reverse-reverse xs)

  pub reverse-perm : (xs : List A) → Perm (reverse xs) xs
  reverse-perm [] = Perm.rfl
  reverse-perm (x ∷ xs) =
      Perm.trans (perm_append_singleton x (reverse xs)) (Perm.cons x (reverse-perm xs))

  module _ {R : A → A → Type 0} (prop : (a b : A) → IsProp (R a b)) where
    Pairwise-snoc :
        (xs : List A) (x : A)
        → Pairwise R xs
        → ((a : A) → Mem a xs → R a x)
        → Pairwise R (xs ++ (x ∷ []))
    Pairwise-snoc [] x s h = Pairwise-singleton _ x
    Pairwise-snoc (y ∷ ys) x (Pairwise.cons below s) h =
        Pairwise.cons
          (λ z m.
            (forall_mem-cons (prop y)).1 (h y mem-cons_self, below) z
              ((Perm.mem_iff (perm_append_singleton x ys)).0 m))
          (Pairwise-snoc ys x s (λ a m. h a (mem-cons_of_mem y m)))

  pub Pairwise-reverse :
      {R : A → A → Type 0} (prop : (a b : A) → IsProp (R a b)) (xs : List A)
      → Pairwise R xs
      → Pairwise (λ a b. R b a) (reverse xs)
  Pairwise-reverse prop [] s = Pairwise.nil
  Pairwise-reverse prop (x ∷ xs) (Pairwise.cons below s) =
      Pairwise-snoc (λ a b. prop b a) (reverse xs) x (Pairwise-reverse prop xs s)
        (λ a m. below a ((Perm.mem_iff (reverse-perm xs)).0 m))

pub reverse-map : {A B : Type 0} (f : A → B) (xs : List A) → reverse (map f xs) ≡ map f (reverse xs)
reverse-map f [] = refl
reverse-map f (x ∷ xs) =
    ap (λ l. l ++ (f x ∷ [])) (reverse-map f xs) ∙ sym (map-append f (reverse xs) (x ∷ []))
