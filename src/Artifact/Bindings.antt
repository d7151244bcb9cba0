-- ===== src/Artifact/Bindings.antt =====
-- Artifacts whose bytes lie on a mirror: `registerExternal`, `registerExternalForReview`,
-- `attachUrl` and the private methods behind them.
use fabushi_backend.Prelude.{
  ℕ, ◌-◌, Bool, ◌&&◌, ◌||◌, not, [], Option, none, some, ◌++◌, take, ltb, leb, nat_beq, text_Eq,
  pair_Eq, ◌==◌, Result, ok, throw_if, or_throw, ◌>>=◌, ◌>>◌, if◌then◌else◌, ◌^◌,
}
use fabushi_backend.Code.{
  Code, release_not_found, artifact_release_frozen, invalid_artifact_size, invalid_artifact_url,
  artifact_binding_conflict, artifact_not_found, review_auth_required,
}
use fabushi_backend.Text.{Text, codes, trim, text_or, is_empty, Locale}
use fabushi_backend.Table
use fabushi_backend.Identity.{ReleaseKey, RawKey, key_Eq, artifact_release_key}
use fabushi_backend.Identity.Laws.{raw_of}
use fabushi_backend.Publisher
use fabushi_backend.Publisher.{assert_owned}
use fabushi_backend.Release.Rows as Releases
use fabushi_backend.Release.Rows.{Release, is_draft, is_pending}
use fabushi_backend.Release.Drafts.{get_release}
use fabushi_backend.Artifact.Rows.{
  Store, Binding, new_artifact, set_url, add_audit, key_payload, url_field, size_fields, registered,
  url_bound,
}
use fabushi_backend.Artifact.Names.{
  Platform, artifact_id, optional_component, artifact_digest, artifact_url,
}

-- What a caller says of an artifact that it registers. `size_bytes` is `none` where the value is
-- no integer, or negative.
pub record External : Type 0 where
  pub artifact_id : Option Text
  pub platform : Option Text
  pub architecture : Option Text
  pub format : Option Text
  pub digest : Option Text
  pub size_bytes : Option ℕ
  pub url : Option Text

-- `['draft', 'pending_review'].includes(release.state)`
unfoldable pub is_open : {D : Type 0} → Release D → Bool
is_open release = is_draft release.state || is_pending release.state

-- Number.isSafeInteger(n) && 0 < n && n <= max
unfoldable pub size_in_bounds : ℕ → ℕ → Bool
size_in_bounds max n = leb n (2 ^ 53 - 1) && ltb 0 n && leb n max

module _ (l : Locale) (p : Platform) {D : Type 0} (releases : Releases.Store D) (st : Store) where
  -- the release must be there and not reviewed
  unfoldable pub open_release : ReleaseKey → Result Code (Release D)
  unfolding is_open
  open_release key = do
    found ← get_release l releases (raw_of key)
    release ← or_throw found release_not_found
    throw_if (not (is_open release)) artifact_release_frozen
    ok release

  -- `#bindUrl`
  unfoldable pub bind_url : ReleaseKey → Text → Text → Text → ℕ → Result Code Store
  unfolding is_open
  bind_url key id mirror_url actor now = do
    existing ← or_throw (Table.get st.artifacts (key, id)) artifact_not_found
    found ← get_release l releases (raw_of key)
    release ← or_throw found artifact_release_frozen
    throw_if (not (is_open release)) artifact_release_frozen
    ok (
        add_audit
          (record st { artifacts = Table.update st.artifacts (key, id) (set_url mirror_url) })
          existing.digest url_bound actor (key_payload key id (url_field mirror_url)) now)

  -- the branches of `#bindExternal` behind its checks
  unfoldable pub bind_checked :
      ReleaseKey → Text → Text → ℕ → Text → External → Text → ℕ → Result Code Store
  unfolding bind_url
  bind_checked key id digest size mirror_url e actor now = elim (Table.get st.artifacts (key, id)) [
    | some existing ↦
        throw_if (not (existing.digest == digest) || not (nat_beq existing.size_bytes size))
          artifact_binding_conflict
        >> (if not (mirror_url == existing.artifact_url)
            then bind_url key id mirror_url actor now
            else ok st)
    | none ↦ do
      platform ← optional_component l e.platform (codes "all")
      architecture ← optional_component l e.architecture (codes "any")
      format ← optional_component l e.format (codes "binary")
      let binding : Binding = record {
        digest = digest;
        size_bytes = size;
        platform = platform;
        architecture = architecture;
        format = format;
        url = mirror_url;
      }
      ok (
          add_audit
            (record st {
              artifacts = Table.insert st.artifacts (key, id) (new_artifact binding now);
            })
            digest registered actor (key_payload key id (size_fields size (url_field mirror_url)))
            now)
  ]

  -- `#bindExternal`
  unfoldable pub bind_external : ReleaseKey → External → Text → ℕ → Result Code Store
  unfolding open_release size_in_bounds bind_checked
  bind_external key e actor now = do
    release ← open_release key
    id ← artifact_id l e.artifact_id
    digest ← artifact_digest l e.digest
    size ← or_throw e.size_bytes invalid_artifact_size
    throw_if (not (size_in_bounds st.max_artifact_bytes size)) invalid_artifact_size
    mirror_url ← artifact_url l p e.url
    throw_if (is_empty mirror_url) invalid_artifact_url
    bind_checked key id digest size mirror_url e actor now

  unfoldable pub register_external :
      Publisher.Store → Option Text → RawKey → External → ℕ → Result Code Store
  unfolding bind_external
  register_external publishers actor raw e now = do
    key ← artifact_release_key l raw
    shown ← assert_owned l publishers (some key.namespace) actor
    bind_external key e (text_or actor []) now

  unfoldable pub register_external_for_review :
      Option Text → RawKey → External → ℕ → Result Code Store
  unfolding bind_external
  register_external_for_review reviewer raw e now = do
    let label = take 160 (trim (text_or reviewer []))
    throw_if (is_empty label) review_auth_required
    key ← artifact_release_key l raw
    bind_external key e (codes "review:" ++ label) now

  unfoldable pub attach_url :
      Publisher.Store → Option Text → RawKey → Option Text → Option Text → ℕ → Result Code Store
  unfolding bind_url
  attach_url publishers actor raw id_value url now = do
    key ← artifact_release_key l raw
    shown ← assert_owned l publishers (some key.namespace) actor
    id ← artifact_id l id_value
    mirror_url ← artifact_url l p url
    bind_url key id mirror_url (text_or actor []) now
