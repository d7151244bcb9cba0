-- ===== src/Publisher/Names.antt =====
-- The normalisers of ai-backend/src/extension_publisher_store.js: a namespace, an account id and
-- a display name as the store accepts them.
use fabushi_backend.Prelude.{
  Bool, ◌||◌, List, [], ◌∷◌, Option, length, ltb, not, Result, ok, throw_if, ◌>>=◌, ◌>>◌,
}
use fabushi_backend.Code.{
  Code, invalid_namespace, reserved_namespace, invalid_account, invalid_display_name,
}
use fabushi_backend.Text.{Text, codes, trim, text_or, is_empty, has, Locale}
use fabushi_backend.Text.Pattern.{component_pattern}

abbrev pub namespace_pattern : Text → Bool
namespace_pattern = component_pattern 1 63

pub reserved_namespaces : List Text
reserved_namespaces = codes "fabushi" ∷ []

-- `String(value ?? fallback ?? '').trim()` is not empty and has at most 160 units
unfoldable pub display_name : Option Text → Text → Result Code Text
display_name value fallback = do
  let normalized = trim (text_or value fallback)
  throw_if (is_empty normalized || ltb 160 (length normalized)) invalid_display_name
  ok normalized

unfoldable pub account_id : Option Text → Result Code Text
account_id value = do
  let normalized = trim (text_or value [])
  throw_if (is_empty normalized || ltb 240 (length normalized)) invalid_account
  ok normalized

module _ (l : Locale) where
  unfoldable pub namespace_name : Option Text → Result Code Text
  namespace_name value = do
    let normalized = l.lower (trim (text_or value []))
    throw_if (not (namespace_pattern normalized)) invalid_namespace
    ok normalized

  unfoldable pub claimable_namespace : Option Text → Result Code Text
  unfolding namespace_name reserved_namespaces
  claimable_namespace value = do
    normalized ← namespace_name value
    throw_if (has reserved_namespaces normalized) reserved_namespace
    ok normalized
