-- ===== src/Sync/Cursor.antt =====
-- `encodeCursor`, `decodeCursor` and `positiveLimit`: a cursor is `as1:` and a sequence number.
pub mod Laws
use Prim.Native.Nat.{◌/◌, ◌%◌, min, max}
use fabushi_backend.Prelude.{
  ℕ, suc, zero, ◌+◌, ◌-◌, ◌*◌, ◌^◌, ◌&&◌, [], ◌∷◌, ◌++◌, Option, none, some, ltb, leb, nat_beq,
  if◌then◌else◌,
}
use fabushi_backend.Text.{Text, trim}
use fabushi_backend.Text.Decimal.{decimal}
use fabushi_backend.Text.Pattern.{is_digit}

unfoldable pub number_from : ℕ → Text → Option ℕ
number_from acc [] = some acc
number_from acc (c ∷ s) =
    let rest = number_from (acc * 10 + (c - 48)) s in if is_digit c then rest else none

-- (\d+)
unfoldable pub parse_decimal : Text → Option ℕ
unfolding number_from
parse_decimal [] = none
parse_decimal (c ∷ s) = number_from 0 (c ∷ s)

abbrev pub max_safe_integer : ℕ
max_safe_integer = 2 ^ 53 - 1

unfoldable pub encode_cursor : ℕ → Text
unfolding decimal
encode_cursor sequence = b'a' ∷ b's' ∷ b'1' ∷ b':' ∷ decimal sequence

-- what a cursor says: none is given, it is not one of the server's, or a sequence number
pub data Requested : Type 0 where
  initial invalid : Requested
  from : ℕ → Requested

unfoldable pub safe_sequence : Option ℕ → Requested
safe_sequence none = invalid
safe_sequence (some n) = if leb n max_safe_integer then from n else invalid

-- /^as1:(\d+)$/
unfoldable pub match_cursor : Text → Option ℕ
unfolding parse_decimal
match_cursor (a ∷ b ∷ c ∷ d ∷ rest) =
    if nat_beq a b'a' && nat_beq b b's' && nat_beq c b'1' && nat_beq d b':'
    then parse_decimal rest
    else none
match_cursor _ = none

unfoldable pub decode_cursor : Option Text → Requested
unfolding match_cursor safe_sequence
decode_cursor none = initial
decode_cursor (some []) = initial
decode_cursor (some (c ∷ s)) = safe_sequence (match_cursor (trim (c ∷ s)))

-- Math.max(1, Math.min(max, Math.floor(numeric))), or the fallback where the value is no number
unfoldable pub positive_limit : Option ℕ → ℕ
positive_limit none = 200
positive_limit (some n) = max 1 (min 1000 n)
