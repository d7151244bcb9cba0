-- ===== src/Identity.antt =====
-- The identity of a release, (kind, namespace, name, version), and how the release and the artifact
-- store normalise it: `component` and `releaseKey` of ai-backend/src/extension_release_store.js,
-- `safeComponent` and `releaseKey` of ai-backend/src/extension_artifact_store.js.
pub mod Laws
use fabushi_backend.Prelude.{
  ◌≡◌, ◌↔◌, Bool, true, ◌&&◌, not, [], Option, arith, Eq, text_beq, text_beq_iff, Result, ok,
  throw_if, ◌>>=◌, ◌>>◌,
}
use fabushi_backend.Code.{
  Code, invalid_release_identity, invalid_release_version, invalid_artifact_identity,
  invalid_artifact_version,
}
use fabushi_backend.Text.{Text, trim, text_or, Locale}
use fabushi_backend.Text.Pattern.{component_pattern, version_pattern}

pub record ReleaseKey : Type 0 where
  pub kind : Text
  pub namespace : Text
  pub name : Text
  pub version : Text

-- WHERE kind = ? AND namespace = ? AND name = ? AND version = ?
abbrev pub key_beq : ReleaseKey → ReleaseKey → Bool
key_beq a b =
    text_beq a.kind b.kind
    && text_beq a.namespace b.namespace
    && text_beq a.name b.name
    && text_beq a.version b.version

pub key_beq_iff : (a b : ReleaseKey) → (key_beq a b ≡ true) ↔ (a ≡ b)
key_beq_iff a b = ground (
  arith,
  text_beq_iff a.kind b.kind,
  text_beq_iff a.namespace b.namespace,
  text_beq_iff a.name b.name,
  text_beq_iff a.version b.version,
)

instance abbrev pub key_Eq : Eq ReleaseKey
key_Eq = record { beq = key_beq; beq_iff = key_beq_iff }

-- A key as a caller gives it.
pub record RawKey : Type 0 where
  pub kind : Option Text
  pub namespace : Option Text
  pub name : Option Text
  pub version : Option Text

-- SAFE_COMPONENT
abbrev pub safe_component_pattern : Text → Bool
safe_component_pattern = component_pattern 0 127

unfoldable pub normalized_version : Code → Option Text → Result Code Text
normalized_version code value = do
  let normalized = trim (text_or value [])
  throw_if (not (version_pattern normalized)) code
  ok normalized

module _ (l : Locale) where
  unfoldable pub normalized_component : Code → Option Text → Result Code Text
  normalized_component code value = do
    let normalized = l.lower (trim (text_or value []))
    throw_if (not (safe_component_pattern normalized)) code
    ok normalized

  unfoldable pub normalized_key : Code → Code → RawKey → Result Code ReleaseKey
  normalized_key bad_identity bad_version raw = do
    kind ← normalized_component bad_identity raw.kind
    namespace ← normalized_component bad_identity raw.namespace
    name ← normalized_component bad_identity raw.name
    version ← normalized_version bad_version raw.version
    ok (record { kind = kind; namespace = namespace; name = name; version = version })

  -- `releaseKey` of the release store
  unfoldable pub release_key : RawKey → Result Code ReleaseKey
  unfolding normalized_key
  release_key = normalized_key invalid_release_identity invalid_release_version

  -- `releaseKey` of the artifact store
  unfoldable pub artifact_release_key : RawKey → Result Code ReleaseKey
  unfolding normalized_key
  artifact_release_key = normalized_key invalid_artifact_identity invalid_artifact_version
