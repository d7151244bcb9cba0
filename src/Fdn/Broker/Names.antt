-- ===== src/Fdn/Broker/Names.antt =====
-- `text`, `exactKeys`, `sha256Hex`, `enrollmentSecretDigest` and the checks of identifiers.
use fabushi_backend.Prelude.{
  ℕ, ◌^◌, ◌-◌, Bool, false, ◌&&◌, ◌||◌, not, List, [], ◌∷◌, ◌++◌, Option, none, some, length, every,
  ltb, leb, nat_beq, Result, ok, throw_if, or_throw, ◌>>=◌, ◌>>◌, if◌then◌else◌,
}
use fabushi_backend.Text.{Text, codes, trim, text_or, has, is_empty}
use fabushi_backend.Text.Pattern.{is_digit, is_lower_letter, is_upper_letter, is_hex_digit}
use fabushi_backend.Fdn.Broker.Rows.{
  Error, invalid_grant_id, invalid_grant_secret, invalid_cell_id, core_projection_invalid, Identity,
  CoreValue, Host,
}

-- The trimmed text, or the empty text if it is longer than `max`.
unfoldable pub bounded_text : Option Text → ℕ → Text
bounded_text value max =
    if ltb max (length (trim (text_or value []))) then [] else trim (text_or value [])

-- The keys of an object are distinct, so they are the allowed ones if they are as many.
unfoldable pub exact_keys : List Text → List Text → Bool
exact_keys keys allowed = nat_beq (length keys) (length allowed) && every (has allowed) keys

-- what stands behind a prefix
unfoldable pub behind_prefix : Text → Text → Option Text
behind_prefix [] s = some s
behind_prefix (c ∷ prefix) [] = none
behind_prefix (c ∷ prefix) (d ∷ s) =
    let rest = behind_prefix prefix s in if nat_beq c d then rest else none

-- [A-Za-z0-9_-]
abbrev pub is_word_char : ℕ → Bool
is_word_char c =
    is_digit c || is_lower_letter c || is_upper_letter c || nat_beq c b'_' || nat_beq c b'-'

-- /^network-enroll-[a-f0-9]{32}$/
unfoldable pub grant_id_pattern : Text → Bool
unfolding behind_prefix is_hex_digit
grant_id_pattern s = elim (behind_prefix (codes "network-enroll-") s) [
  | none ↦ false
  | some rest ↦ nat_beq (length rest) 32 && every is_hex_digit rest
]

-- /^cell-[A-Za-z0-9_-]{16,96}$/
unfoldable pub cell_id_pattern : Text → Bool
unfolding behind_prefix
cell_id_pattern s = elim (behind_prefix (codes "cell-") s) [
  | none ↦ false
  | some rest ↦ leb 16 (length rest) && leb (length rest) 96 && every is_word_char rest
]

unfoldable pub grant_id : Option Text → Result Error Text
unfolding bounded_text grant_id_pattern
grant_id value = do
  throw_if (not (grant_id_pattern (bounded_text value 96))) invalid_grant_id
  ok (bounded_text value 96)

unfoldable pub valid_cell : Option Text → Result Error Text
unfolding bounded_text cell_id_pattern
valid_cell value = do
  throw_if (not (cell_id_pattern (bounded_text value 128))) invalid_cell_id
  ok (bounded_text value 128)

-- each part with a zero behind it
unfoldable pub parts_text : List Text → Text
parts_text [] = []
parts_text (part ∷ parts) = part ++ 0 ∷ parts_text parts

unfoldable pub sha256_hex : Host → List Text → Text
unfolding parts_text
sha256_hex h parts = h.sha256 (parts_text parts)

abbrev domain_secret : Text
domain_secret = codes "fabushi-fdn-enrollment-broker-secret-v1" ++ 0 ∷ []

unfoldable pub secret_digest : Host → Option Text → Result Error Text
unfolding bounded_text sha256_hex
secret_digest h secret = do
  throw_if (ltb (length (bounded_text secret 512)) 80) invalid_grant_secret
  ok (sha256_hex h (domain_secret ∷ bounded_text secret 512 ∷ []))

-- `!Number.isSafeInteger(n) || n < 1`
abbrev pub is_positive : ℕ → Bool
is_positive n = ltb 0 n && leb n (2 ^ 53 - 1)

unfoldable pub projection_fields : List Text
projection_fields =
    codes "userId" ∷ codes "deviceId" ∷ codes "cellId" ∷ codes "generation" ∷ codes "expiresAt" ∷ []

-- `validateCoreProjection`; a value that is no object is none
unfoldable pub core_projection : Option CoreValue → Result Error Identity
unfolding exact_keys projection_fields valid_cell bounded_text
core_projection value = do
  v ← or_throw value core_projection_invalid
  throw_if (not (exact_keys v.keys projection_fields)) core_projection_invalid
  cell ← valid_cell v.cell_id
  throw_if (is_empty (bounded_text v.user_id 160) || is_empty (bounded_text v.device_id 128))
      core_projection_invalid
  generation ← or_throw v.generation core_projection_invalid
  expires_at ← or_throw v.expires_at core_projection_invalid
  throw_if (not (is_positive generation) || not (is_positive expires_at)) core_projection_invalid
  ok (record {
    user_id = bounded_text v.user_id 160;
    device_id = bounded_text v.device_id 128;
    cell_id = cell;
    generation = generation;
    expires_at = expires_at;
  })
