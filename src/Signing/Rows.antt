-- ===== src/Signing/Rows.antt =====
-- The rows of the signing store, the configured signer, and what the store takes of `node:crypto`.
use fabushi_backend.Prelude.{ℕ, Bool, true, ◌&&◌, [], Option, none, text_Eq, pair_Eq, nat_Eq, ◌==◌}
use fabushi_backend.Text.{Text, codes}
use fabushi_backend.Table.{Table}
use fabushi_backend.Identity.{ReleaseKey, key_Eq}
use fabushi_backend.Published.{Envelope}

-- A private key, as `node:crypto` holds it, stands as a text. Public keys and signatures are the
-- base64 texts of the rows.
pub record Crypto : Type 0 where
  -- SHA-256 of the bytes of a public key, in hexadecimal
  pub fingerprint : Text → Text
  -- `createPublicKey` accepts the bytes and `asymmetricKeyType` is `ed25519`
  pub is_ed25519 : Text → Bool
  pub sign : Text → Text → Text
  -- `crypto.verify` of a public key, a payload and a signature
  pub verify : Text → Text → Text → Bool
  -- `a.localeCompare(b) < 0`
  pub before : Text → Text → Bool

-- What `loadConfiguredMarketplaceSigner` returns.
pub record Signer : Type 0 where
  pub private_key : Text
  pub public_key : Text
  pub public_key_fingerprint : Text
  pub key_id : Text
  pub trust_epoch : ℕ

pub data KeyStatus : Type 0 where
  active withdrawn : KeyStatus

unfoldable pub is_active : KeyStatus → Bool
is_active active = true
is_active withdrawn = Bool.false

-- A row of `extension_trust_keys`, less its key.
pub record TrustKey : Type 0 where
  pub algorithm : Text
  pub public_key : Text
  pub public_key_fingerprint : Text
  pub status : KeyStatus
  pub created_at_ms : ℕ
  pub revoked_at_ms : Option ℕ
  pub revocation_reason : Text

-- The two tables and the configured signer.
pub record Store : Type 0 where
  pub trust_keys : Table (Text × ℕ) TrustKey
  pub signatures : Table ReleaseKey Envelope
  pub signer : Option Signer

abbrev pub empty : Store
empty = record { trust_keys = []; signatures = []; signer = none }

abbrev pub ed25519 : Text
ed25519 = codes "Ed25519"

-- The statement `trustInsert`.
unfoldable pub new_trust_key : Signer → ℕ → TrustKey
new_trust_key s now = record {
  algorithm = ed25519;
  public_key = s.public_key;
  public_key_fingerprint = s.public_key_fingerprint;
  status = active;
  created_at_ms = now;
  revoked_at_ms = none;
  revocation_reason = [];
}

-- The statement `trustRevoke`, on a row that is active.
unfoldable pub set_withdrawn : Text → ℕ → TrustKey → TrustKey
set_withdrawn reason now row = record row {
  status = withdrawn;
  revoked_at_ms = Option.some now;
  revocation_reason = reason;
}

-- `verifyReleaseSignatureEnvelope`
unfoldable pub verify_envelope : Crypto → Envelope → Bool
verify_envelope c e =
    (e.algorithm == ed25519)
    && (c.fingerprint e.public_key == e.public_key_fingerprint)
    && c.is_ed25519 e.public_key
    && c.verify e.public_key e.payload e.signature
