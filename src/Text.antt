-- ===== src/Text.antt =====
-- JavaScript strings as lists of UTF-16 code units, and the operations on them that the stores
-- use: `trim`, `slice(0, n)`, `value ?? fallback`, `Set.prototype.has`. The case table of
-- `toLocaleLowerCase` belongs to the runtime: it is a parameter, with what Unicode fixes of it.
pub mod Decimal
pub mod Pattern
pub mod Split
pub mod Trim
use Prim.Native.Char.{code}
use Prim.Native.String.{String}
use mathlib.Core.List.{reverse}
use fabushi_backend.Prelude.{
  ℕ, ◌≡◌, Bool, true, false, ◌&&◌, ◌||◌, not, List, [], ◌∷◌, Option, none, some, length, take,
  every, leb, nat_beq, text_Eq, ◌==◌, if◌then◌else◌,
}

abbrev pub Text : Type 0
Text = List ℕ

-- A literal of the source.
abbrev pub codes : String → Text
codes String.[] = []
codes (String.◌∷◌ c s) = code c ∷ codes s

-- The code units that `String.prototype.trim` strips: WhiteSpace and LineTerminator.
unfoldable pub is_space : ℕ → Bool
is_space c =
    (leb 9 c && leb c 13)
    || nat_beq c 32
    || nat_beq c 160
    || nat_beq c 0x1680
    || (leb 0x2000 c && leb c 0x200a)
    || nat_beq c 0x2028
    || nat_beq c 0x2029
    || nat_beq c 0x202f
    || nat_beq c 0x205f
    || nat_beq c 0x3000
    || nat_beq c 0xfeff

unfoldable pub drop_space : Text → Text
drop_space [] = []
drop_space (c ∷ s) = if is_space c then drop_space s else c ∷ s

unfoldable pub trim : Text → Text
unfolding drop_space is_space
trim s = reverse (drop_space (reverse (drop_space s)))

-- `String(value ?? fallback)`
unfoldable pub text_or : Option Text → Text → Text
text_or none fallback = fallback
text_or (some s) fallback = s

-- `value || fallback`, where the empty string is falsy
unfoldable pub or_else : Text → Text → Text
or_else [] fallback = fallback
or_else (c ∷ s) fallback = c ∷ s

unfoldable pub is_empty : Text → Bool
is_empty [] = true
is_empty (c ∷ s) = false

unfoldable pub has : List Text → Text → Bool
has [] s = false
has (t ∷ ts) s = t == s || has ts s

-- ASCII text with no capital letter.
unfoldable pub is_ascii_lower : ℕ → Bool
is_ascii_lower c = leb c 127 && not (leb 65 c && leb c 90)

-- `toLocaleLowerCase`, and what the Unicode tables say of every locale's ASCII range.
pub record Locale : Type 0 where
  pub lower : Text → Text
  pub lower_ascii : (s : Text) → every is_ascii_lower s ≡ true → lower s ≡ s
