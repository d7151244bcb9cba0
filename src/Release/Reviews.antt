-- ===== src/Release/Reviews.antt =====
-- The reviewer's side of ai-backend/src/extension_release_store.js, and the publisher's `yank`.

use fabushi_backend.Prelude.{
  ℕ, Bool, true, false, not, List, [], ◌∷◌, Option, none, some, text_Eq, Result, ok, throw_if,
  ◌>>=◌, ◌>>◌, if◌then◌else◌,
}
use fabushi_backend.Code.{Code, invalid_release_state}
use fabushi_backend.Text.{Text, codes, text_or, Locale}
use fabushi_backend.Json.{Json, Items, Fields, text, number, arr, obj, nil, cons, end, field}
use fabushi_backend.Published.{PublicArtifact, Envelope}
use fabushi_backend.Table
use fabushi_backend.Table.{Table}
use fabushi_backend.Identity.{ReleaseKey, RawKey, key_Eq}
use fabushi_backend.Publisher
use fabushi_backend.Publisher.{assert_owned}
use fabushi_backend.Release.Rows.{
  State, Release, approved, rejected, is_pending, is_approved, Action, reviewed_approved,
  reviewed_rejected, yanked, revoked_by_review, Store, reviewer_name, review_text, add_audit,
  set_reviewed, set_revoked, revoke_payload,
}
use fabushi_backend.Release.Drafts.{required}

-- What `approvalGate` of the artifact store hands over.
abbrev pub Gate : Type 0
Gate = ReleaseKey → Result Code (List PublicArtifact)

-- `signRelease` of the signing store, whose state is `S`: it is given the descriptor, its digest
-- and the artifacts.
abbrev pub SignRelease : Type 0 → Type 0 → Type 0
SignRelease D S = D → Text → List PublicArtifact → Result Code (S × Envelope)

artifact_items : List PublicArtifact → Items
artifact_items [] = nil
artifact_items (a ∷ rest) =
    cons
      (obj (
        field (codes "artifactId") (text a.artifact_id)
          (field (codes "digest") (text a.digest) end)))
      (artifact_items rest)

artifact_field : Option (List PublicArtifact) → Fields → Fields
unfolding artifact_items
artifact_field none rest = rest
artifact_field (some artifacts) rest =
    field (codes "artifacts") (arr (artifact_items artifacts)) rest

signature_field : Option Envelope → Fields
signature_field none = end
signature_field (some e) =
    field (codes "signature")
      (obj (
        field (codes "keyId") (text e.key_id) (
          field (codes "trustEpoch") (number e.trust_epoch)
            (field (codes "publicKeyFingerprint") (text e.public_key_fingerprint) end))))
      end

unfoldable pub review_payload : Text → Option (List PublicArtifact) → Option Envelope → Json
unfolding artifact_field signature_field
review_payload notes artifacts signature =
    obj (field (codes "notes") (text notes) (artifact_field artifacts (signature_field signature)))

-- `gate` is there if `setArtifactStore` was called
unfoldable pub artifacts_for :
    Option Gate → Bool → ReleaseKey → Result Code (Option (List PublicArtifact))
artifacts_for none approve key = ok none
artifacts_for (some gate) false key = ok none
artifacts_for (some gate) true key = do artifacts ← gate key; ok (some artifacts)

abbrev pub artifacts_or_nil : Option (List PublicArtifact) → List PublicArtifact
artifacts_or_nil none = []
artifacts_or_nil (some artifacts) = artifacts

module _ {D S : Type 0} (unsigned : S) where
  -- `sign` is there if `setSigningStore` was called
  unfoldable pub signature_for :
      Option (SignRelease D S)
      → Bool
      → Release D
      → Option (List PublicArtifact)
      → Result Code (S × Option Envelope)
  signature_for none approve row artifacts = ok (unsigned, none)
  signature_for (some sign) false row artifacts = ok (unsigned, none)
  signature_for (some sign) true row artifacts = do
    (signed, e) ← sign row.descriptor row.descriptor_digest (artifacts_or_nil artifacts)
    ok (signed, some e)

module _ (l : Locale) where
  module _ {D S : Type 0} (st : Store D) (unsigned : S) where
    -- The signature and the row are written by one transaction, with the state of the signing
    -- store.
    unfoldable pub review :
        Option Gate
        → Option (SignRelease D S)
        → Bool
        → Option Text
        → Option Text
        → RawKey
        → ℕ
        → Result Code (Store D × S)
    unfolding artifacts_for signature_for review_payload add_audit
    review gate sign approve reviewer notes raw now = do
      (key, row) ← required l st raw
      throw_if (not (is_pending row.state)) invalid_release_state
      artifacts ← artifacts_for gate approve key
      (signed, signature) ← signature_for unsigned sign approve row artifacts
      ok (
        add_audit
            (record st {
              releases = Table.update st.releases key (
                  set_reviewed (if approve then approved else rejected) (reviewer_name reviewer)
                    (review_text notes) now);
            })
            key (if approve then reviewed_approved else reviewed_rejected) (reviewer_name reviewer)
            (review_payload (review_text notes) artifacts signature) now,
        signed,
      )

  module _ {D : Type 0} (st : Store D) where
    -- `#revoke`
    unfoldable pub revoke_row : ReleaseKey → State → Text → Option Text → Action → ℕ → Store D
    unfolding add_audit
    revoke_row key previous actor notes action now =
        add_audit
          (record st {
            releases = Table.update st.releases key (set_revoked actor (review_text notes) now);
          })
          key action actor (revoke_payload previous (review_text notes)) now

    unfoldable pub yank :
        Publisher.Store → Option Text → Option Text → RawKey → ℕ → Result Code (Store D)
    unfolding revoke_row
    yank publishers actor notes raw now = do
      (key, row) ← required l st raw
      shown ← assert_owned l publishers (some key.namespace) actor
      throw_if (not (is_approved row.state)) invalid_release_state
      ok (revoke_row key row.state (text_or actor []) notes yanked now)

    unfoldable pub revoke : Option Text → Option Text → RawKey → ℕ → Result Code (Store D)
    unfolding revoke_row
    revoke reviewer notes raw now = do
      (key, row) ← required l st raw
      throw_if (not (is_approved row.state)) invalid_release_state
      ok (revoke_row key row.state (reviewer_name reviewer) notes revoked_by_review now)
