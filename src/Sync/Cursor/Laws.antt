-- ===== src/Sync/Cursor/Laws.antt =====
-- A cursor that the server has given out is read back as the sequence number it was made from.
use Prim.Native.Nat.{◌/◌, ◌%◌}
use fabushi_backend.Prelude.{
  ℕ, suc, zero, ◌+◌, ◌-◌, ◌*◌, ◌<◌, ◌≤◌, ◌≡◌, refl, ap, ◌∙◌, true, [], ◌∷◌, ◌++◌, some, ltb, every,
  arith, Bool-cases, inl, inr,
}
use fabushi_backend.Text.{Text, is_space}
use fabushi_backend.Text.Trim.{is_ink, every-append, trim_ink}
use fabushi_backend.Text.Pattern.{is_digit}
use fabushi_backend.Text.Decimal.{digits_fuel, decimal}
use fabushi_backend.Sync.Cursor.{
  number_from, parse_decimal, max_safe_integer, encode_cursor, decode_cursor, match_cursor,
  safe_sequence, from,
}

number_from-append :
    (acc : ℕ) (s t : Text) (m : ℕ)
    → number_from acc s ≡ some m
    → number_from acc (s ++ t) ≡ number_from m t
unfolding number_from
number_from-append acc [] t m h = ground arith
number_from-append acc (c ∷ s) t m h = elim (Bool-cases (is_digit c)) [
  | inl digit ↦
      let rest = number_from-append (acc * 10 + (c - 48)) s t m (ground arith) in
      ground (arith, rest)
  | inr other ↦ absurd (ground arith)
]

number_from-digit : (acc n : ℕ) → n < 10 → number_from acc ((48 + n) ∷ []) ≡ some (acc * 10 + n)
unfolding number_from
number_from-digit acc n h = ground arith

digit_ink : (n : ℕ) → n < 10 → every is_ink ((48 + n) ∷ []) ≡ true
unfolding is_space
digit_ink n h = ground arith

number_from-digits_fuel : (f n : ℕ) → n < f → number_from 0 (digits_fuel f n) ≡ some n
unfolding digits_fuel
number_from-digits_fuel zero n h = absurd (omega arith)
number_from-digits_fuel (suc f) n h = elim (Bool-cases (ltb n 10)) [
  | inl small ↦ rw small (number_from-digit 0 n (ground arith) ∙ ap some (omega arith))
  | inr large ↦
      let below : n / 10 < f = grind arith in
      let whole : n / 10 * 10 + n % 10 ≡ n = omega arith in
      rw large (
        number_from-append 0 (digits_fuel f (n / 10)) _ (n / 10)
          (number_from-digits_fuel f (n / 10) below)
        ∙ (number_from-digit (n / 10) (n % 10) (omega arith) ∙ ap some whole))
]

digits_fuel_ink : (f n : ℕ) → every is_ink (digits_fuel f n) ≡ true
unfolding digits_fuel
digits_fuel_ink zero n = refl
digits_fuel_ink (suc f) n = elim (Bool-cases (ltb n 10)) [
  | inl small ↦ rw small (digit_ink n (ground arith))
  | inr large ↦ rw large (
      every-append is_ink (digits_fuel f (n / 10)) _ (digits_fuel_ink f (n / 10))
        (digit_ink (n % 10) (omega arith)))
]

parse_decimal-append :
    (s : Text) (c : ℕ) → parse_decimal (s ++ c ∷ []) ≡ number_from 0 (s ++ c ∷ [])
unfolding parse_decimal
parse_decimal-append [] c = refl
parse_decimal-append (d ∷ s) c = refl

parse_decimal-digits_fuel :
    (f n : ℕ) → parse_decimal (digits_fuel (suc f) n) ≡ number_from 0 (digits_fuel (suc f) n)
unfolding digits_fuel
parse_decimal-digits_fuel f n = elim (Bool-cases (ltb n 10)) [
  | inl small ↦ rw small (parse_decimal-append [] (48 + n))
  | inr large ↦ rw large (parse_decimal-append (digits_fuel f (n / 10)) (48 + n % 10))
]

parse_decimal-decimal : (n : ℕ) → parse_decimal (decimal n) ≡ some n
unfolding decimal
parse_decimal-decimal n =
    parse_decimal-digits_fuel n n ∙ number_from-digits_fuel (suc n) n (omega arith)

encode_cursor_ink : (n : ℕ) → every is_ink (encode_cursor n) ≡ true
unfolding encode_cursor decimal is_space
encode_cursor_ink n = digits_fuel_ink (suc n) n

-- A cursor made from a sequence number of at most 2^53-1 is read back as that number.
pub decode_cursor-encode_cursor :
    (n : ℕ) → n ≤ max_safe_integer → decode_cursor (some (encode_cursor n)) ≡ from n
unfolding decode_cursor safe_sequence encode_cursor match_cursor
decode_cursor-encode_cursor n h =
    rw (trim_ink (encode_cursor n) (encode_cursor_ink n), parse_decimal-decimal n) (ground arith)
