-- ===== src/Signing/Keys.antt =====
-- The trust keys: `#registerConfiguredSigner`, `revokeTrustKey`, `keyId`, `positiveEpoch`.
use fabushi_backend.Prelude.{
  ℕ, ◌^◌, ◌-◌, Bool, false, ◌&&◌, ◌||◌, not, [], ◌∷◌, Option, none, some, length, take, every, leb,
  nat_beq, text_Eq, pair_Eq, nat_Eq, ◌==◌, Result, ok, throw_if, or_throw, ◌>>=◌, ◌>>◌,
}
use fabushi_backend.Code.{
  Code, invalid_trust_epoch, invalid_signing_key_id, trust_key_material_conflict, trust_key_revoked,
  trust_key_not_found, trust_key_already_revoked, active_signer_revocation_requires_rotation,
}
use fabushi_backend.Text.{Text, trim, text_or}
use fabushi_backend.Text.Pattern.{is_digit, is_lower_letter, is_upper_letter}
use fabushi_backend.Table
use fabushi_backend.Signing.Rows.{
  Store, Signer, TrustKey, is_active, ed25519, new_trust_key, set_withdrawn,
}

-- a number that JavaScript's `Number` gives no natural number for is none
unfoldable pub positive_epoch : Option ℕ → Result Code ℕ
positive_epoch value = do
  epoch ← or_throw value invalid_trust_epoch
  throw_if (not (leb epoch (2 ^ 53 - 1)) || nat_beq epoch 0) invalid_trust_epoch
  ok epoch

abbrev is_alphanumeric : ℕ → Bool
is_alphanumeric c = is_digit c || is_lower_letter c || is_upper_letter c

abbrev is_key_char : ℕ → Bool
is_key_char c =
    is_alphanumeric c || nat_beq c b'.' || nat_beq c b'_' || nat_beq c b':' || nat_beq c b'-'

-- /^[A-Za-z0-9][A-Za-z0-9._:-]{0,127}$/
unfoldable pub key_id_pattern : Text → Bool
key_id_pattern [] = false
key_id_pattern (c ∷ s) = is_alphanumeric c && leb (length s) 127 && every is_key_char s

unfoldable pub key_id : Option Text → Result Code Text
unfolding key_id_pattern
key_id value = do
  let normalized = trim (text_or value [])
  throw_if (not (key_id_pattern normalized)) invalid_signing_key_id
  ok normalized

unfoldable pub same_material : Signer → TrustKey → Bool
same_material s row =
    (row.algorithm == ed25519)
    && (row.public_key == s.public_key)
    && (row.public_key_fingerprint == s.public_key_fingerprint)

-- `#registerConfiguredSigner`
unfoldable pub register_signer : Store → Signer → ℕ → Result Code Store
unfolding same_material
register_signer st s now = elim (Table.get st.trust_keys (s.key_id, s.trust_epoch)) [
  | some existing ↦ do
    throw_if (not (same_material s existing)) trust_key_material_conflict
    throw_if (not (is_active existing.status)) trust_key_revoked
    ok (record st { signer = some s })
  | none ↦ ok (record st {
    signer = some s;
    trust_keys = Table.insert st.trust_keys (s.key_id, s.trust_epoch) (new_trust_key s now);
  })
]

-- A new store object on the same database, with the signer that is configured then.
unfoldable pub start : Store → Option Signer → ℕ → Result Code Store
unfolding register_signer
start st none now = ok (record st { signer = none })
start st (some s) now = register_signer st s now

unfoldable pub is_signer : Option Signer → Text → ℕ → Bool
is_signer none id epoch = false
is_signer (some s) id epoch = (s.key_id == id) && nat_beq s.trust_epoch epoch

unfoldable pub revoke_trust_key :
    Store → Option Text → Option ℕ → Option Text → ℕ → Result Code Store
unfolding key_id positive_epoch is_signer
revoke_trust_key st raw_id raw_epoch reason now = do
  id ← key_id raw_id
  epoch ← positive_epoch raw_epoch
  throw_if (is_signer st.signer id epoch) active_signer_revocation_requires_rotation
  existing ← or_throw (Table.get st.trust_keys (id, epoch)) trust_key_not_found
  throw_if (not (is_active existing.status)) trust_key_already_revoked
  ok (record st {
    trust_keys =
        Table.update st.trust_keys (id, epoch)
          (set_withdrawn (take 4000 (trim (text_or reason []))) now);
  })
