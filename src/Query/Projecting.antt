-- ===== src/Query/Projecting.antt =====
-- project.rs: `Project` streams the projections of its child's tuples.
use crusty_db.Prelude.{◌≡◌, refl, true, false, List, [], ◌∷◌, none, some, All, map}
use crusty_db.Expr.Bytecode.{Operators, ByteCodeExpr}
use crusty_db.Query.{ok, Tuple, new_tuple, OpIterator}
use crusty_db.Query.Streams.{IsStream}
use crusty_db.Query.Project.{
  Project, new, new_field_vals, configure, open_op, next, close, rewind, project_operator,
}

-- The expressions give the fields `image` on each tuple.
abbrev pub Computes :
    {T S : Type 0}
    → Operators T
    → OpIterator T S
    → List (ByteCodeExpr T)
    → (Tuple T → List T)
    → List (Tuple T)
    → Type 0
Computes ops it fields image xs = All (λ t. new_field_vals ops it fields t ≡ ok (image t)) xs

-- Over a child that streams `all` from its state `first`, with expressions that give the fields `image` on each tuple of
-- `all`, `Project` streams the tuples of those fields, one for each tuple of `all`, in order.
pub project_operator-IsStream :
    {T S : Type 0} (ops : Operators T) (it : OpIterator T S) (fields : List (ByteCodeExpr T))
    (image : Tuple T → List T) (first : S) (all : List (Tuple T))
    → IsStream it first all
    → Computes ops it fields image all
    → IsStream (project_operator ops it) (new fields first) (map (λ t. new_tuple (image t)) all)
unfolding new configure open_op next close rewind
project_operator-IsStream {T} {S} ops it fields image first all c d = record {
  ready = λ p. (p.is_open ≡ false) × (p.fields ≡ fields) × c.ready p.child;
  left = λ ys p. (p.is_open ≡ true) × (p.fields ≡ fields) × Left ys p.child;
  starts = (refl, refl, c.starts);
  configures = λ p (o, f, r). (o, f, c.configures p.child r);
  opens = λ p (o, f, r).
      let (s, ran, l) = c.opens p.child r in
      (record p { child = s; is_open = true }, rw (o, ran) refl, (refl, f, (all, l, refl, d)));
  stays_open = λ ys p (o, f, more). (record p { is_open = true }, rw o refl, (refl, f, more));
  yields = λ y ys p (o, f, more). yield_one y ys p o f more;
  ends = λ p (o, f, more). end_all p o f more;
  rewinds = λ ys p (o, f, (xs, l, e, dx)).
      let (s, ran, l') = c.rewinds xs p.child l in
      (record p { child = s }, rw (o, ran) refl, (o, f, (all, l', refl, d)));
  closes = λ ys p (o, f, (xs, l, e, dx)).
      let (s, ran) = c.closes xs p.child l in
      (record p { child = s; is_open = false }, rw ran refl);
}
  where
    Left : List (Tuple T) → S → Type 0
    Left ys s =
        (xs : List (Tuple T)) × c.left xs s
        × (map (λ t. new_tuple (image t)) xs ≡ ys)
        × Computes ops it fields image xs

    yield_one :
        (y : Tuple T) (ys : List (Tuple T)) (p : Project T S)
        → p.is_open ≡ true
        → p.fields ≡ fields
        → Left (y ∷ ys) p.child
        → (p' : Project T S) × (next ops it p ≡ ok (some y, p'))
          × ((p'.is_open ≡ true) × (p'.fields ≡ fields) × Left ys p'.child)
    yield_one y ys p o f ([], l, e, dx) = absurd cc
    yield_one y ys p o f (x ∷ xs, l, e, dx) =
        let (s, ran, l') = c.yields x xs p.child l in
        let head : new_tuple (image x) ≡ y = cc in
        let tail : map (λ t. new_tuple (image t)) xs ≡ ys = cc in
        (
          record { fields = fields; child = s; is_open = true },
          rw (o, ran, f, dx.0, head, o) refl,
          (refl, refl, (xs, l', tail, dx.1)),
        )

    end_all :
        (p : Project T S)
        → p.is_open ≡ true
        → p.fields ≡ fields
        → Left [] p.child
        → (p' : Project T S) × (next ops it p ≡ ok (none, p'))
          × ((p'.is_open ≡ true) × (p'.fields ≡ fields) × Left [] p'.child)
    end_all p o f ([], l, e, dx) =
        let (s, ran, l') = c.ends p.child l in
        (record p { child = s; is_open = true }, rw (o, ran, o) refl, (refl, f, ([], l', refl, tt)))
    end_all p o f (x ∷ xs, l, e, dx) = absurd cc
