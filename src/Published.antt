-- ===== src/Published.antt =====
-- What the stores hand one another of an artifact and of a signature.
use fabushi_backend.Prelude.{ℕ}
use fabushi_backend.Text.{Text}

-- The result of `publicArtifact`, less the verdict of the scan and the time of creation, which no
-- other store reads.
pub record PublicArtifact : Type 0 where
  pub artifact_id : Text
  pub digest : Text
  pub size_bytes : ℕ
  pub platform : Text
  pub architecture : Text
  pub format : Text
  pub url : Text

-- A signature envelope (`publicEnvelope`), less its protocol, which is the same in all.
pub record Envelope : Type 0 where
  pub algorithm : Text
  pub key_id : Text
  pub trust_epoch : ℕ
  pub public_key : Text
  pub public_key_fingerprint : Text
  pub payload : Text
  pub signature : Text
  pub signed_at_ms : ℕ
