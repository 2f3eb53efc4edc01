-- ===== src/Tests/Fields.antt =====
-- datatypes.rs on concrete fields.
use crusty_db.Prelude.{ℕ, ◌≡◌, refl, Bool, true, List, [], ◌∷◌, some, arith}
use crusty_db.Field.{Field, char, string, decimal, dtype, to_bytes, from_bytes}
use crusty_db.Field.Codec.{padded, from-to_bytes-padded}

abbrev any_string : List ℕ → Bool
any_string bs = true

abbrev short_char : Field
short_char = char 3 (65 ∷ [])

field_bytes_example :
    (bs : List ℕ) × (to_bytes short_char ≡ some bs)
    × (from_bytes any_string bs (dtype short_char) ≡ some (some (padded short_char)))
field_bytes_example = from-to_bytes-padded any_string short_char (omega arith, refl)

padded-short_char : padded short_char ≡ char 3 (65 ∷ 0 ∷ 0 ∷ [])
padded-short_char = refl

decimal_bytes :
    to_bytes (decimal 1234 2) ≡ some (210 ∷ 4 ∷ 0 ∷ 0 ∷ 0 ∷ 0 ∷ 0 ∷ 0 ∷ 2 ∷ 0 ∷ 0 ∷ 0 ∷ [])
unfolding to_bytes
decimal_bytes = refl

string_bytes : to_bytes (string (65 ∷ 66 ∷ [])) ≡ some (2 ∷ 0 ∷ 0 ∷ 0 ∷ 65 ∷ 66 ∷ [])
unfolding to_bytes
string_bytes = refl
