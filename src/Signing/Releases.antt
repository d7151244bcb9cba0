-- ===== src/Signing/Releases.antt =====
-- The signatures of releases: `signRelease`, `getSignature`, `getTrustedSignature`.
use fabushi_backend.Prelude.{
  ℕ, Bool, false, ◌&&◌, ◌||◌, not, List, [], Option, none, some, text_Eq, pair_Eq, nat_Eq, ◌==◌,
  Result, ok, err, throw_if, or_throw, ◌>>=◌, ◌>>◌, if◌then◌else◌,
}
use fabushi_backend.Code.{
  Code, invalid_signing_release, signing_key_required, signature_conflict,
  signature_self_check_failed,
}
use fabushi_backend.Text.{Text, trim, text_or, is_empty, Locale}
use fabushi_backend.Table
use fabushi_backend.Identity.{RawKey, ReleaseKey, key_Eq}
use fabushi_backend.Published.{PublicArtifact, Envelope}
use fabushi_backend.Signing.Rows.{
  Crypto, Signer, Store, TrustKey, is_active, ed25519, verify_envelope,
}
use fabushi_backend.Signing.Payload.{canonical_payload}
use fabushi_backend.Signing.Keys.{is_signer}

-- `releaseKey` of the signing store
unfoldable pub signing_key : Locale → RawKey → Result Code ReleaseKey
signing_key l raw = do
  let kind = l.lower (trim (text_or raw.kind []))
  let namespace = l.lower (trim (text_or raw.namespace []))
  let name = l.lower (trim (text_or raw.name []))
  let version = trim (text_or raw.version [])
  throw_if (is_empty kind || is_empty namespace || is_empty name || is_empty version)
      invalid_signing_release
  ok (record { kind = kind; namespace = namespace; name = name; version = version })

unfoldable pub get_signature : Locale → Store → RawKey → Result Code (Option Envelope)
unfolding signing_key
get_signature l st raw = do key ← signing_key l raw; ok (Table.get st.signatures key)

-- the trust key of an envelope is there, active and of the same material
unfoldable pub trusts : Option TrustKey → Envelope → Bool
trusts none e = false
trusts (some t) e =
    is_active t.status
    && (t.algorithm == e.algorithm)
    && (t.public_key == e.public_key)
    && (t.public_key_fingerprint == e.public_key_fingerprint)

unfoldable pub trusted : Crypto → Store → Envelope → Bool
unfolding trusts verify_envelope
trusted c st e = trusts (Table.get st.trust_keys (e.key_id, e.trust_epoch)) e && verify_envelope c e

unfoldable pub trusted_or_none : Crypto → Store → Option Envelope → Option Envelope
unfolding trusted
trusted_or_none c st none = none
trusted_or_none c st (some e) = if trusted c st e then some e else none

unfoldable pub get_trusted_signature :
    Locale → Crypto → Store → RawKey → Result Code (Option Envelope)
unfolding get_signature trusted_or_none
get_trusted_signature l c st raw = do
  found ← get_signature l st raw
  ok (trusted_or_none c st found)

-- a signature that is there already is the one that would be made
unfoldable pub reusable : Crypto → Store → Text → Envelope → Bool
unfolding is_signer verify_envelope
reusable c st payload e =
    is_signer st.signer e.key_id e.trust_epoch && (e.payload == payload) && verify_envelope c e

unfoldable pub new_envelope : Crypto → Signer → Text → ℕ → Envelope
new_envelope c s payload now = record {
  algorithm = ed25519;
  key_id = s.key_id;
  trust_epoch = s.trust_epoch;
  public_key = s.public_key;
  public_key_fingerprint = s.public_key_fingerprint;
  payload = payload;
  signature = c.sign s.private_key payload;
  signed_at_ms = now;
}

unfoldable pub sign_new :
    Crypto → Store → ReleaseKey → Signer → Text → ℕ → Result Code (Store × Envelope)
unfolding new_envelope verify_envelope
sign_new c st key s payload now = do
  throw_if (not (verify_envelope c (new_envelope c s payload now))) signature_self_check_failed
  ok (
    record st { signatures = Table.insert st.signatures key (new_envelope c s payload now) },
    new_envelope c s payload now,
  )

-- The raw identity is that of the descriptor, with the version of its release.
unfoldable pub sign_release :
    Locale
    → Crypto
    → Store
    → RawKey
    → Text
    → List PublicArtifact
    → ℕ
    → Result Code (Store × Envelope)
unfolding signing_key reusable sign_new
sign_release l c st identity digest artifacts now = do
  key ← signing_key l identity
  payload ← canonical_payload c st.signer identity digest artifacts
  s ← or_throw st.signer signing_key_required
  elim (Table.get st.signatures key) [
    | some existing ↦
        if reusable c st payload existing then ok (st, existing) else err signature_conflict
    | none ↦ sign_new c st key s payload now
  ]
