-- ===== src/Release/Drafts.antt =====
-- The publisher's side of ai-backend/src/extension_release_store.js, and the reviewer's import:
-- drafts, their submission, and the lookup of a release.

use fabushi_backend.Prelude.{
  ℕ, true, ◌||◌, not, [], Option, none, some, text_Eq, ◌==◌, Result, ok, throw_if, or_throw,
  is_some, ◌>>=◌, ◌>>◌, if◌then◌else◌,
}
use fabushi_backend.Code.{Code, invalid_release_state, release_not_found, release_conflict}
use fabushi_backend.Text.{Text, codes, text_or, Locale}
use fabushi_backend.Json.{text, flag, obj, end, field}
use fabushi_backend.Table
use fabushi_backend.Table.{Table}
use fabushi_backend.Identity.{ReleaseKey, RawKey, key_Eq, normalized_component, release_key}
use fabushi_backend.Code.{invalid_release_identity}
use fabushi_backend.Publisher
use fabushi_backend.Publisher.{assert_owned}
use fabushi_backend.Release.Rows.{
  is_draft, is_pending, is_approved, Release, created, submitted, Store, Entries, add_audit,
  new_release, import_actor, set_submitted, digest_payload,
}

module _ (l : Locale) where
  module _ {D : Type 0} (st : Store D) where
    -- `#require`, behind `releaseKey`
    unfoldable pub required : RawKey → Result Code (ReleaseKey × Release D)
    required raw = do
      key ← release_key l raw
      row ← or_throw (Table.get st.releases key) release_not_found
      ok (key, row)

    unfoldable pub get_release : RawKey → Result Code (Option (Release D))
    get_release raw = do key ← release_key l raw; ok (Table.get st.releases key)

    unfoldable pub submit : Publisher.Store → Option Text → RawKey → ℕ → Result Code (Store D)
    unfolding required add_audit
    submit publishers actor raw now = do
      (key, row) ← required raw
      shown ← assert_owned l publishers (some key.namespace) actor
      throw_if (not (is_draft row.state)) invalid_release_state
      ok (
          add_audit (record st { releases = Table.update st.releases key (set_submitted now) }) key
            submitted (text_or actor []) (digest_payload row.descriptor_digest) now)

  module _ (en : Entries) (st : Store en.Descriptor) where
    -- `#sanitizeDescriptor`
    unfoldable pub sanitize : en.Input → Result Code (Text × en.Descriptor × ReleaseKey)
    sanitize input = do
      namespace ← normalized_component l invalid_release_identity (en.input_namespace input)
      descriptor ← en.normalize namespace input
      key ← release_key l (en.identity descriptor)
      ok (namespace, descriptor, key)

    unfoldable pub create_draft :
        Publisher.Store → Option Text → en.Input → ℕ → Result Code (Store en.Descriptor)
    unfolding sanitize add_audit
    create_draft publishers actor input now = do
      (namespace, descriptor, key) ← sanitize input
      shown ← assert_owned l publishers (some namespace) actor
      throw_if (is_some (Table.get st.releases key)) release_conflict
      ok (
          add_audit
            (record st {
              releases =
                  Table.insert st.releases key
                    (new_release descriptor (en.digest descriptor) (text_or actor []) now);
            })
            key created (text_or actor []) (digest_payload (en.digest descriptor)) now)

    -- the branches of `importReviewed` on a release that is there
    unfoldable pub import_again :
        ReleaseKey → Text → Text → Release en.Descriptor → ℕ → Result Code (Store en.Descriptor)
    unfolding add_audit
    import_again key actor digest row now = do
      throw_if (not (row.descriptor_digest == digest)) release_conflict
      if is_pending row.state || is_approved row.state
          then ok st
          else throw_if (not (is_draft row.state)) invalid_release_state
            >> ok (
                add_audit
                  (record st { releases = Table.update st.releases key (set_submitted now) }) key
                  submitted actor (digest_payload digest) now)

    -- and on one that is not: it is created and submitted in one transaction
    unfoldable pub import_new : ReleaseKey → Text → Text → en.Descriptor → ℕ → Store en.Descriptor
    unfolding add_audit
    import_new key actor digest descriptor now =
        let created_st =
          add_audit
            (record st {
              releases = Table.insert st.releases key (new_release descriptor digest actor now);
            })
            key created actor
            (obj (
              field (codes "descriptorDigest") (text digest)
                (field (codes "imported") (flag true) end)))
            now in
        add_audit
          (record created_st {
            releases = Table.update created_st.releases key (set_submitted now);
          })
          key submitted actor (digest_payload digest) now

    unfoldable pub import_reviewed : Option Text → en.Input → ℕ → Result Code (Store en.Descriptor)
    unfolding sanitize import_again import_new
    import_reviewed reviewer input now = do
      (namespace, descriptor, key) ← sanitize input
      elim (Table.get st.releases key) [
        | some row ↦ import_again key (import_actor reviewer) (en.digest descriptor) row now
        | none ↦ ok (import_new key (import_actor reviewer) (en.digest descriptor) descriptor now)
      ]
