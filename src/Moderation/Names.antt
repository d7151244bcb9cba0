-- ===== src/Moderation/Names.antt =====
-- The normalisers of the moderation store.
use fabushi_backend.Prelude.{
  ℕ, Bool, true, ◌&&◌, ◌||◌, not, List, [], ◌∷◌, Option, some, length, leb, ltb, every, nat_beq,
  text_Eq, ◌==◌, Result, ok, throw_if, ◌>>=◌, ◌>>◌,
}
use fabushi_backend.Code.{
  Code, invalid_moderation_input, invalid_moderation_release, invalid_case_id,
  invalid_report_reason,
}
use fabushi_backend.Text.{Text, codes, trim, text_or, is_empty, has, Locale}
use fabushi_backend.Text.Pattern.{version_pattern, is_hex_digit}
use fabushi_backend.Identity.{ReleaseKey, RawKey, safe_component_pattern}

unfoldable pub bounded : Bool → Option Text → ℕ → Result Code Text
bounded required value max = do
  let normalized = trim (text_or value [])
  throw_if ((required && is_empty normalized) || ltb max (length normalized))
      invalid_moderation_input
  ok normalized

abbrev pub report_reasons : List Text
report_reasons =
    codes "malware" ∷ codes "impersonation" ∷ codes "privacy" ∷ codes "policy" ∷ codes "other" ∷ []

-- [0-9a-f-] under the flag i
unfoldable pub is_case_char : ℕ → Bool
is_case_char c = is_hex_digit c || (leb b'A' c && leb c b'F') || nat_beq c b'-'

unfoldable pub case_id : Option Text → Result Code Text
unfolding bounded is_case_char
case_id value = do
  normalized ← bounded true value 80
  throw_if (not (nat_beq (length normalized) 36 && every is_case_char normalized)) invalid_case_id
  ok normalized

unfoldable pub moderation_account : Option Text → Result Code Text
unfolding bounded
moderation_account value = bounded true value 240

unfoldable pub moderation_version : Option Text → Result Code Text
unfolding bounded
moderation_version value = do
  normalized ← bounded true value 128
  throw_if (not (version_pattern normalized)) invalid_moderation_release
  ok normalized

-- `reviewer ?? 'marketplace-reviewer'`
unfoldable pub moderation_reviewer : Option Text → Result Code Text
unfolding bounded
moderation_reviewer reviewer =
    bounded true (some (text_or reviewer (codes "marketplace-reviewer"))) 160

module _ (l : Locale) where
  unfoldable pub moderation_component : Option Text → Result Code Text
  unfolding bounded
  moderation_component value = do
    text ← bounded true value 128
    throw_if (not (safe_component_pattern (l.lower text))) invalid_moderation_release
    ok (l.lower text)

  unfoldable pub moderation_key : RawKey → Result Code ReleaseKey
  unfolding moderation_component moderation_version
  moderation_key raw = do
    kind ← moderation_component raw.kind
    namespace ← moderation_component raw.namespace
    name ← moderation_component raw.name
    version ← moderation_version raw.version
    ok (record { kind = kind; namespace = namespace; name = name; version = version })

  unfoldable pub report_reason : Option Text → Result Code Text
  unfolding bounded
  report_reason value = do
    text ← bounded true value 40
    throw_if (not (has report_reasons (l.lower text))) invalid_report_reason
    ok (l.lower text)

  -- the first decision is true, the second false
  unfoldable pub decided : Text → Text → Code → Option Text → Result Code Bool
  unfolding bounded
  decided positive negative code value = do
    text ← bounded true value 24
    throw_if (not (l.lower text == positive) && not (l.lower text == negative)) code
    ok (l.lower text == positive)
