-- ===== src/Text/Split.antt =====
-- `split(separator)` by one code unit.
use fabushi_backend.Prelude.{ℕ, List, [], ◌∷◌, nat_beq, if◌then◌else◌}

unfoldable pub add_unit : ℕ → List (List ℕ) → List (List ℕ)
add_unit c [] = (c ∷ []) ∷ []
add_unit c (part ∷ rest) = (c ∷ part) ∷ rest

unfoldable pub split_on : ℕ → List ℕ → List (List ℕ)
unfolding add_unit
split_on separator [] = [] ∷ []
split_on separator (c ∷ s) =
    let rest = split_on separator s in if nat_beq c separator then [] ∷ rest else add_unit c rest
