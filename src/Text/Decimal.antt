-- ===== src/Text/Decimal.antt =====
-- `String(n)` of a natural number.
use Prim.Native.Nat.{◌/◌, ◌%◌}
use fabushi_backend.Prelude.{ℕ, suc, zero, ◌+◌, [], ◌∷◌, ◌++◌, ltb, if◌then◌else◌}
use fabushi_backend.Text.{Text}

-- the decimal digits of a number; a number has at most as many digits as it is large
unfoldable pub digits_fuel : ℕ → ℕ → Text
digits_fuel zero n = []
digits_fuel (suc f) n =
    let rest = digits_fuel f (n / 10) ++ (48 + n % 10) ∷ [] in
    if ltb n 10 then (48 + n) ∷ [] else rest

unfoldable pub decimal : ℕ → Text
unfolding digits_fuel
decimal n = digits_fuel (suc n) n
