-- ===== src/Text/Pattern.antt =====
-- The regular expressions by which the stores of the extension marketplace accept identities:
--   SAFE_COMPONENT     /^[a-z0-9][a-z0-9._-]{0,127}$/
--   NAMESPACE_PATTERN  /^[a-z0-9][a-z0-9._-]{1,63}$/
--   VERSION_PATTERN    /^[0-9]+\.[0-9]+\.[0-9]+(?:[-+][0-9A-Za-z.-]+)?$/
--   DIGEST_PATTERN     /^[0-9a-f]{64}$/
use fabushi_backend.Prelude.{
  ℕ, Bool, true, false, ◌&&◌, ◌||◌, List, [], ◌∷◌, Option, none, some, length, every, leb, nat_beq,
  if◌then◌else◌,
}

abbrev pub is_digit : ℕ → Bool
is_digit c = leb b'0' c && leb c b'9'

abbrev pub is_lower_letter : ℕ → Bool
is_lower_letter c = leb b'a' c && leb c b'z'

abbrev pub is_upper_letter : ℕ → Bool
is_upper_letter c = leb b'A' c && leb c b'Z'

-- [a-z0-9]
unfoldable pub is_component_start : ℕ → Bool
is_component_start c = is_lower_letter c || is_digit c

-- [a-z0-9._-]
unfoldable pub is_component_char : ℕ → Bool
unfolding is_component_start
is_component_char c = is_component_start c || nat_beq c b'.' || nat_beq c b'_' || nat_beq c b'-'

-- /^[a-z0-9][a-z0-9._-]{lo,hi}$/
unfoldable pub component_pattern : ℕ → ℕ → List ℕ → Bool
unfolding is_component_start is_component_char
component_pattern lo hi [] = false
component_pattern lo hi (c ∷ s) =
    is_component_start c && leb lo (length s) && leb (length s) hi && every is_component_char s

-- [0-9]+, greedy: what stands behind the digits
unfoldable pub skip_digits : List ℕ → List ℕ
skip_digits [] = []
skip_digits (c ∷ s) = if is_digit c then skip_digits s else c ∷ s

unfoldable pub skip_number : List ℕ → Option (List ℕ)
unfolding skip_digits
skip_number [] = none
skip_number (c ∷ s) = if is_digit c then some (skip_digits s) else none

unfoldable pub skip_dot : Option (List ℕ) → Option (List ℕ)
skip_dot none = none
skip_dot (some []) = none
skip_dot (some (c ∷ s)) = if nat_beq c b'.' then some s else none

unfoldable pub then_number : Option (List ℕ) → Option (List ℕ)
unfolding skip_number
then_number none = none
then_number (some s) = skip_number s

-- [0-9A-Za-z.-]
unfoldable pub is_suffix_char : ℕ → Bool
is_suffix_char c =
    is_digit c || is_lower_letter c || is_upper_letter c || nat_beq c b'.' || nat_beq c b'-'

-- (?:[-+][0-9A-Za-z.-]+)?$
unfoldable pub version_suffix : Option (List ℕ) → Bool
unfolding is_suffix_char
version_suffix none = false
version_suffix (some []) = true
version_suffix (some (c ∷ [])) = false
version_suffix (some (c ∷ d ∷ s)) =
    (nat_beq c b'-' || nat_beq c b'+') && is_suffix_char d && every is_suffix_char s

unfoldable pub version_pattern : List ℕ → Bool
unfolding skip_number skip_dot then_number version_suffix
version_pattern s = version_suffix (then_number (skip_dot (then_number (skip_dot (skip_number s)))))

-- [0-9a-f]
unfoldable pub is_hex_digit : ℕ → Bool
is_hex_digit c = is_digit c || (leb b'a' c && leb c b'f')

unfoldable pub digest_pattern : List ℕ → Bool
unfolding is_hex_digit
digest_pattern s = nat_beq (length s) 64 && every is_hex_digit s
