-- ===== src/Publisher/Secrets.antt =====
-- `assertNoSecrets` of ai-backend/src/extension_publisher_store.js: no field name of an audit
-- payload, at any depth, may look like a credential.
use fabushi_backend.Prelude.{
  ℕ, ◌+◌, Bool, true, false, ◌&&◌, ◌||◌, [], ◌∷◌, leb, nat_beq, Result, ok, throw_if, ◌>>◌,
  if◌then◌else◌,
}
use fabushi_backend.Code.{Code, secret_audit_field}
use fabushi_backend.Text.{Text, codes}
use fabushi_backend.Json.{
  Json, Items, Fields, text, number, flag, null, arr, obj, nil, cons, end, field,
}

-- the flag `i`: without the flag `u` only ASCII letters fold to ASCII
unfoldable pub fold_case : ℕ → ℕ
fold_case c = if leb b'A' c && leb c b'Z' then c + 32 else c

unfoldable pub starts_with : Text → Text → Bool
unfolding fold_case
starts_with [] s = true
starts_with (p ∷ ps) [] = false
starts_with (p ∷ ps) (c ∷ s) = nat_beq p (fold_case c) && starts_with ps s

unfoldable pub includes : Text → Text → Bool
unfolding starts_with
includes p [] = starts_with p []
includes p (c ∷ s) = starts_with p (c ∷ s) || includes p s

-- /(token|secret|password|api[-_]?key|credential|authorization)/i
unfoldable pub secret_field : Text → Bool
unfolding includes
secret_field key =
    includes (codes "token") key
    || includes (codes "secret") key
    || includes (codes "password") key
    || includes (codes "apikey") key
    || includes (codes "api-key") key
    || includes (codes "api_key") key
    || includes (codes "credential") key
    || includes (codes "authorization") key

unfoldable mutual
  unfolding secret_field

  pub assert_no_secrets : Json → Result Code (Unit {0})
  assert_no_secrets (text s) = ok tt
  assert_no_secrets (number n) = ok tt
  assert_no_secrets (flag b) = ok tt
  assert_no_secrets null = ok tt
  assert_no_secrets (arr xs) = assert_items xs
  assert_no_secrets (obj fs) = assert_fields fs

  pub assert_items : Items → Result Code (Unit {0})
  assert_items nil = ok tt
  assert_items (cons x xs) = assert_no_secrets x >> assert_items xs

  pub assert_fields : Fields → Result Code (Unit {0})
  assert_fields end = ok tt
  assert_fields (field k v fs) =
      throw_if (secret_field k) secret_audit_field >> (assert_no_secrets v >> assert_fields fs)
