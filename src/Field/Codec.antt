-- ===== src/Field/Codec.antt =====
-- A field's bytes, read back.
use crusty_db.Prelude.{
  ℕ, zero, suc, ◌+◌, ◌-◌, ◌*◌, ◌<◌, ◌≤◌, ◌^◌, ◌≡◌, refl, sym, ◌∙◌, ap, ap₂, Bool, true, false, List,
  [], ◌∷◌, ◌++◌, some, ◌==◌, length, take, drop, replicate, OrPanic, ◌>>=◌, arith, le→leb,
  length-append,
}
use crusty_db.Bytes.{to_le_bytes, from_le_bytes}
use crusty_db.Bytes.Laws.{from-to_le_bytes, length-to_le_bytes, length-replicate}
use crusty_db.Field.{
  Field, big_int, int, small_int, char, string, date, decimal, bool, null, dtype, to_bytes,
  from_bytes, int_from, range, string_from, as_field, first,
}

-- What a field reads back as: a string in a `Char` field is filled up with zero bytes.
abbrev pub padded : Field → Field
padded (char i s) = char i (s ++ replicate (i - length s) 0)
padded f = f

-- The field's numbers fit their widths, and its string is no longer than its field, and is UTF-8
-- also with the zero bytes.
abbrev pub IsField : (List ℕ → Bool) → Field → Type 0
IsField is_utf8 (big_int x) = x < 256 ^ 8
IsField is_utf8 (int x) = x < 256 ^ 4
IsField is_utf8 (small_int x) = x < 256 ^ 2
IsField is_utf8 (date x) = x < 256 ^ 8
IsField is_utf8 (char i s) = (length s ≤ i) × (is_utf8 (s ++ replicate (i - length s) 0) ≡ true)
IsField is_utf8 (string s) = (length s < 256 ^ 4) × (is_utf8 s ≡ true)
IsField is_utf8 (decimal whole scale) = (whole < 256 ^ 8) × (scale < 256 ^ 4)
IsField is_utf8 (bool b) = Unit
IsField is_utf8 null = Unit

module _ {ℓ} {A : Type ℓ} where
  take-append : (xs ys : List A) → take (length xs) (xs ++ ys) ≡ xs
  take-append [] ys = refl
  take-append (x ∷ xs) ys = ap (λ l. x ∷ l) (take-append xs ys)

  drop-append : (xs ys : List A) → drop (length xs) (xs ++ ys) ≡ ys
  drop-append [] ys = refl
  drop-append (x ∷ xs) ys = drop-append xs ys

  take_all : (xs : List A) → take (length xs) xs ≡ xs
  take_all [] = refl
  take_all (x ∷ xs) = ap (λ l. x ∷ l) (take_all xs)

  take-replicate : (n m : ℕ) (x : A) → n ≤ m → take n (replicate m x) ≡ replicate n x
  take-replicate zero m x h = refl
  take-replicate (suc n) zero x h = absurd (omega (arith, h))
  take-replicate (suc n) (suc m) x h = ap (λ l. x ∷ l) (take-replicate n m x (omega (arith, h)))

take_padded :
    (s : List ℕ) (i m : ℕ)
    → length s ≤ i
    → i ≤ length s + m
    → take i (s ++ replicate m 0) ≡ s ++ replicate (i - length s) 0
take_padded [] i m h h' =
    take-replicate i m 0 (omega (arith, h')) ∙ ap (λ n. replicate n 0) (omega arith)
take_padded (x ∷ xs) zero m h h' = absurd (omega (arith, h))
take_padded (x ∷ xs) (suc i) m h h' =
    ap (λ l. x ∷ l)
      (take_padded xs i m (omega (arith, h)) (omega (arith, h'))
        ∙ ap (λ n. xs ++ replicate n 0) (omega arith))

same_number : (n : ℕ) → (n == n) ≡ true
same_number n = ground arith

int_from_lem : (w x : ℕ) → x < 256 ^ w → int_from w (to_le_bytes w x) ≡ some x
unfolding int_from
int_from_lem w x h =
    rw (int_from, length-to_le_bytes w x, same_number w) (ap some (from-to_le_bytes w x h))

-- The first of two parts, and the second.
range_front : (n : ℕ) (xs ys : List ℕ) → length xs ≡ n → range 0 n (xs ++ ys) ≡ some xs
unfolding range
range_front n xs ys h = rw (sym h) (
    rw (range, le→leb (0 + length xs) (length (xs ++ ys)) (omega (arith, length-append xs ys)))
      (ap some (take-append xs ys)))

range_back :
    (m n : ℕ) (xs ys : List ℕ) → length xs ≡ m → length ys ≡ n → range m n (xs ++ ys) ≡ some ys
unfolding range
range_back m n xs ys h h' =
    rw (sym h, sym h')
      (rw
        (
          range,
          le→leb (length xs + length ys) (length (xs ++ ys)) (omega (arith, length-append xs ys)),
          drop-append xs ys,
        )
        (ap some (take_all ys)))

range_padded :
    (i : ℕ) (s : List ℕ)
    → length s ≤ i
    → range 0 i (s ++ replicate (i * 4 - length s) 0) ≡ some (s ++ replicate (i - length s) 0)
unfolding range
range_padded i s h =
    let fits : 0 + i ≤ length (s ++ replicate (i * 4 - length s) 0) = omega (
      arith,
      h,
      length-append s (replicate (i * 4 - length s) 0),
      length-replicate {A = ℕ} (i * 4 - length s) 0,
    ) in
    rw (range, le→leb (0 + i) (length (s ++ replicate (i * 4 - length s) 0)) fits)
      (ap some (take_padded s i (i * 4 - length s) h (omega (arith, h))))

module _ (is_utf8 : List ℕ → Bool) where
  -- A field whose numbers fit their widths is written, and reads back as itself by its own type,
  -- but for a string that is shorter than its `Char` field, which comes back filled up with zero
  -- bytes to the field's length. The string of a `String` field is to be UTF-8 and shorter than
  -- 2^32 bytes, and that of a `Char` field no longer than the field, and UTF-8 when it is filled up
  -- in this way.
  pub from-to_bytes-padded :
      (f : Field)
      → IsField is_utf8 f
      → (bs : List ℕ) × (to_bytes f ≡ some bs)
        × (from_bytes is_utf8 bs (dtype f) ≡ some (some (padded f)))
  unfolding to_bytes from_bytes dtype string_from first
  from-to_bytes-padded (big_int x) h =
      (to_le_bytes 8 x, refl, ap (λ o. as_field o big_int) (int_from_lem 8 x h))
  from-to_bytes-padded (int x) h =
      (to_le_bytes 4 x, refl, ap (λ o. as_field o int) (int_from_lem 4 x h))
  from-to_bytes-padded (small_int x) h =
      (to_le_bytes 2 x, refl, ap (λ o. as_field o small_int) (int_from_lem 2 x h))
  from-to_bytes-padded (date x) h =
      (to_le_bytes 8 x, refl, ap (λ o. as_field o date) (int_from_lem 8 x h))
  from-to_bytes-padded (char i s) (h, u) = (
    s ++ replicate (i * 4 - length s) 0,
    rw (to_bytes, le→leb (length s) i h) refl,
    rw (dtype, from_bytes, range_padded i s h, string_from, u) refl,
  )
  from-to_bytes-padded (string s) (h, u) = (
    to_le_bytes 4 (length s) ++ s,
    refl,
    rw
        (
          dtype,
          from_bytes,
          range_front 4 (to_le_bytes 4 (length s)) s (length-to_le_bytes 4 (length s)),
        )
        (rw
          (
            from-to_le_bytes 4 (length s) h,
            range_back 4 (length s) (to_le_bytes 4 (length s)) s (length-to_le_bytes 4 (length s))
                refl,
            string_from,
            u,
          )
          refl),
  )
  from-to_bytes-padded (decimal whole scale) (h, h') = (
    to_le_bytes 8 whole ++ to_le_bytes 4 scale,
    refl,
    ap₂
          (λ (r r' : OrPanic (List ℕ)).
            r >>= λ w. r' >>= λ c. some (some (decimal (from_le_bytes w) (from_le_bytes c))))
          (range_front 8 (to_le_bytes 8 whole) (to_le_bytes 4 scale) (length-to_le_bytes 8 whole))
          (range_back 8 4 (to_le_bytes 8 whole) (to_le_bytes 4 scale) (length-to_le_bytes 8 whole)
            (length-to_le_bytes 4 scale))
        ∙ ap₂ (λ w c. some (some (decimal w c))) (from-to_le_bytes 8 whole h)
            (from-to_le_bytes 4 scale h'),
  )
  from-to_bytes-padded (bool true) h = (1 ∷ [], refl, refl)
  from-to_bytes-padded (bool false) h = (0 ∷ [], refl, refl)
  from-to_bytes-padded null h = (0 ∷ [], refl, refl)
