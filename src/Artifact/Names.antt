-- ===== src/Artifact/Names.antt =====
-- The normalisers of the artifact store. The URL parser of the platform is a parameter.
use fabushi_backend.Prelude.{
  ℕ, Bool, ◌&&◌, ◌||◌, not, List, [], ◌∷◌, Option, length, ltb, text_Eq, ◌==◌, Result, ok, err,
  throw_if, or_throw, ◌>>=◌, ◌>>◌, if◌then◌else◌,
}
use fabushi_backend.Code.{
  Code, invalid_artifact_identity, invalid_artifact_metadata, invalid_artifact_url,
  invalid_artifact_digest, invalid_scan_state,
}
use fabushi_backend.Text.{Text, codes, trim, text_or, is_empty, has, Locale}
use fabushi_backend.Text.Pattern.{digest_pattern}
use fabushi_backend.Identity.{normalized_component, safe_component_pattern}
use fabushi_backend.Signing.Rows.{Crypto}
use fabushi_backend.Artifact.Rows.{ScanState, passed, rejected}

-- The parts of a `URL` object that the store reads; `href` is `toString()`.
pub record Url : Type 0 where
  pub protocol : Text
  pub username : Text
  pub password : Text
  pub port : Text
  pub hostname : Text
  pub hash : Text
  pub href : Text

-- What the platform gives: `new URL(text)`, which may throw, SHA-256 in hexadecimal, and what the
-- signing store takes of `node:crypto`.
pub record Platform : Type 0 where
  pub parse_url : Text → Option Url
  pub sha256 : List ℕ → Text
  pub crypto : Crypto

pub artifact_url_hosts : List Text
artifact_url_hosts =
    codes "github.com"
    ∷ codes "objects.githubusercontent.com"
    ∷ codes "release-assets.githubusercontent.com"
    ∷ []

-- the states that a reviewer may record: `pending` is refused
unfoldable pub scan_result : Text → Result Code ScanState
scan_result state =
    if state == codes "passed"
    then ok passed
    else if state == codes "rejected"
    then ok rejected
    else err invalid_scan_state

module _ (l : Locale) where
  unfoldable pub artifact_id : Option Text → Result Code Text
  artifact_id = normalized_component l invalid_artifact_identity

  unfoldable pub optional_component : Option Text → Text → Result Code Text
  optional_component value fallback = do
    let normalized = l.lower (trim (text_or value fallback))
    throw_if (not (is_empty normalized) && not (safe_component_pattern normalized))
        invalid_artifact_metadata
    ok (if is_empty normalized then fallback else normalized)

  unfoldable pub artifact_digest : Option Text → Result Code Text
  artifact_digest value = do
    let digest = l.lower (trim (text_or value []))
    throw_if (not (digest_pattern digest)) invalid_artifact_digest
    ok digest

  -- the tests of `artifactUrl` on the parsed URL
  unfoldable pub refused_url : Url → Bool
  unfolding artifact_url_hosts
  refused_url u =
      not (u.protocol == codes "https:")
      || not (is_empty u.username)
      || not (is_empty u.password)
      || (not (is_empty u.port) && not (u.port == codes "443"))
      || not (has artifact_url_hosts (l.lower u.hostname))
      || not (is_empty u.hash)

  unfoldable pub artifact_url : Platform → Option Text → Result Code Text
  unfolding refused_url
  artifact_url p value = do
    let normalized = trim (text_or value [])
    if is_empty normalized
        then ok []
        else throw_if (ltb 2048 (length normalized)) invalid_artifact_url >> (do
          parsed ← or_throw (p.parse_url normalized) invalid_artifact_url
          throw_if (refused_url parsed) invalid_artifact_url
          ok parsed.href)
