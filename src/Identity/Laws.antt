-- ===== src/Identity/Laws.antt =====
-- A normalised key is normalised again to itself: the stores pass keys to one another, and each
-- normalises what it is given.
use fabushi_backend.Prelude.{◌≡◌, true, some, arith, ok}
use fabushi_backend.Code.{Code}
use fabushi_backend.Text.{Text, text_or, Locale}
use fabushi_backend.Text.Pattern.{version_pattern}
use fabushi_backend.Text.Trim.{component_trim, component_lower, version_trim}
use fabushi_backend.Identity.{
  ReleaseKey, RawKey, safe_component_pattern, normalized_component, normalized_version,
  normalized_key,
}

abbrev pub raw_of : ReleaseKey → RawKey
raw_of k = record {
  kind = some k.kind;
  namespace = some k.namespace;
  name = some k.name;
  version = some k.version;
}

-- What the patterns accept.
pub record IsNormal (k : ReleaseKey) : Type 0 where
  pub kind : safe_component_pattern k.kind ≡ true
  pub namespace : safe_component_pattern k.namespace ≡ true
  pub name : safe_component_pattern k.name ≡ true
  pub version : version_pattern k.version ≡ true

normalized_version_again :
    (code : Code) (s : Text) → version_pattern s ≡ true → normalized_version code (some s) ≡ ok s
unfolding normalized_version text_or
normalized_version_again code s h = rw (version_trim s h) (ground arith)

module _ (l : Locale) (code : Code) where
  normalized_component_again :
      (s : Text) → safe_component_pattern s ≡ true → normalized_component l code (some s) ≡ ok s
  unfolding normalized_component text_or
  normalized_component_again s h =
      rw (component_trim 0 127 s h, component_lower l 0 127 s h) (ground arith)

module _ (l : Locale) (c d : Code) where
  pub normalized_key-IsNormal :
      (raw : RawKey) (k : ReleaseKey) → normalized_key l c d raw ≡ ok k → IsNormal k
  unfolding normalized_key normalized_component normalized_version
  normalized_key-IsNormal raw k h = ground arith

  pub normalized_key_again : (k : ReleaseKey) → IsNormal k → normalized_key l c d (raw_of k) ≡ ok k
  unfolding normalized_key
  normalized_key_again k n = rw (
    normalized_component_again l c k.kind n.kind,
    normalized_component_again l c k.namespace n.namespace,
    normalized_component_again l c k.name n.name,
    normalized_version_again d k.version n.version,
  )

  -- A key that was normalised once is accepted as it is.
  pub normalized_key_idem :
      (raw : RawKey) (k : ReleaseKey)
      → normalized_key l c d raw ≡ ok k
      → normalized_key l c d (raw_of k) ≡ ok k
  normalized_key_idem raw k h = normalized_key_again k (normalized_key-IsNormal raw k h)
