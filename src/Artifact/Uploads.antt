-- ===== src/Artifact/Uploads.antt =====
-- `upload`, with the content-addressed files that it writes before the database row.
use fabushi_backend.Prelude.{
  ℕ, ◌||◌, not, List, [], Option, none, some, length, ltb, leb, nat_beq, text_Eq, pair_Eq, ◌==◌,
  Result, ok, err, throw_if, ◌>>=◌, ◌>>◌, if◌then◌else◌, ◌&&◌,
}
use fabushi_backend.Code.{
  Code, invalid_artifact_size, artifact_binding_conflict, artifact_cas_corrupt,
}
use fabushi_backend.Json.{end}
use fabushi_backend.Text.{Text, codes, text_or, is_empty, Locale}
use fabushi_backend.Table
use fabushi_backend.Table.{Table}
use fabushi_backend.Identity.{ReleaseKey, RawKey, key_Eq, artifact_release_key}
use fabushi_backend.Identity.Laws.{raw_of}
use fabushi_backend.Publisher
use fabushi_backend.Publisher.{assert_owned}
use fabushi_backend.Release.Rows as Releases
use fabushi_backend.Artifact.Rows.{
  Artifact, Store, Binding, new_artifact, add_audit, key_payload, url_field, size_fields, uploaded,
}
use fabushi_backend.Artifact.Names.{Platform, artifact_id, optional_component, artifact_url}
use fabushi_backend.Artifact.Bindings.{open_release, attach_url}

pub record Upload : Type 0 where
  pub artifact_id : Option Text
  pub platform : Option Text
  pub architecture : Option Text
  pub format : Option Text
  pub bytes : List ℕ
  pub url : Option Text

-- An upload that passed the checks.
pub record Checked : Type 0 where
  pub key : ReleaseKey
  pub id : Text
  pub mirror_url : Text
  pub digest : Text

-- `#writeCas`: a file of the digest that is there must have the size of the bytes
unfoldable pub write_cas : Table Text (List ℕ) → Text → List ℕ → Result Code (Table Text (List ℕ))
write_cas cas digest bytes = elim (Table.get cas digest) [
  | some there ↦
      throw_if (not (nat_beq (length there) (length bytes))) artifact_cas_corrupt >> ok cas
  | none ↦ ok (Table.insert cas digest bytes)
]

module _ (l : Locale) (p : Platform) {D : Type 0} (releases : Releases.Store D) (st : Store) where
  unfoldable pub check_upload :
      Publisher.Store → Option Text → RawKey → Upload → Result Code Checked
  unfolding open_release
  check_upload publishers actor raw u = do
    key ← artifact_release_key l raw
    shown ← assert_owned l publishers (some key.namespace) actor
    release ← open_release l p releases st key
    id ← artifact_id l u.artifact_id
    mirror_url ← artifact_url l p u.url
    throw_if (leb (length u.bytes) 0 || ltb st.max_artifact_bytes (length u.bytes))
        invalid_artifact_size
    ok (record { key = key; id = id; mirror_url = mirror_url; digest = p.sha256 u.bytes })

  -- the binding is there: its digest must be that of the bytes
  unfoldable pub upload_again :
      Publisher.Store → Option Text → Checked → Artifact → ℕ → Result Code Store
  unfolding attach_url
  upload_again publishers actor c existing now = do
    throw_if (not (existing.digest == c.digest)) artifact_binding_conflict
    if not (is_empty c.mirror_url) && not (c.mirror_url == existing.artifact_url)
        then attach_url l p releases st publishers actor (raw_of c.key) (some c.id)
            (some c.mirror_url) now
        else ok st

  -- the row of a new binding, once its bytes are stored
  unfoldable pub upload_row : Option Text → Checked → Upload → ℕ → Store → Result Code Store
  upload_row actor c u now stored = do
    platform ← optional_component l u.platform (codes "all")
    architecture ← optional_component l u.architecture (codes "any")
    format ← optional_component l u.format (codes "binary")
    let binding : Binding = record {
      digest = c.digest;
      size_bytes = length u.bytes;
      platform = platform;
      architecture = architecture;
      format = format;
      url = c.mirror_url;
    }
    ok (
        add_audit
          (record stored {
            artifacts = Table.insert stored.artifacts (c.key, c.id) (new_artifact binding now);
          })
          c.digest uploaded (text_or actor [])
          (key_payload c.key c.id (
            size_fields (length u.bytes)
              (if is_empty c.mirror_url then end else url_field c.mirror_url)))
          now)

  -- what is left behind: the state, and the error if the call throws
  abbrev pub Outcome : Type 0
  Outcome = Store × Option Code

  abbrev pub settle : Store → Result Code Store → Outcome
  settle s (ok s') = (s', none)
  settle s (err e) = (s, some e)

  unfoldable pub upload_new : Option Text → Checked → Upload → ℕ → Outcome
  unfolding write_cas upload_row
  upload_new actor c u now = elim (write_cas st.cas c.digest u.bytes) [
    | err e ↦ (st, some e)
    | ok cas ↦
        let stored = record st { cas = cas } in settle stored (upload_row actor c u now stored)
  ]

  unfoldable pub upload_checked : Publisher.Store → Option Text → Checked → Upload → ℕ → Outcome
  unfolding upload_again upload_new
  upload_checked publishers actor c u now = elim (Table.get st.artifacts (c.key, c.id)) [
    | some existing ↦ settle st (upload_again publishers actor c existing now)
    | none ↦ upload_new actor c u now
  ]

  unfoldable pub upload : Publisher.Store → Option Text → RawKey → Upload → ℕ → Outcome
  unfolding check_upload upload_checked
  upload publishers actor raw u now = elim (check_upload publishers actor raw u) [
    | err e ↦ (st, some e)
    | ok c ↦ upload_checked publishers actor c u now
  ]
