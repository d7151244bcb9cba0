-- ===== src/Signing/Payload.antt =====
-- `canonicalReleaseSignaturePayload`: the text that is signed.
use fabushi_backend.Prelude.{
  ◌^◌, ◌-◌, Bool, true, ◌&&◌, ◌||◌, not, List, [], ◌∷◌, Option, none, some, every, ltb, leb, Result,
  ok, throw_if, or_throw, ◌>>=◌, ◌>>◌, if◌then◌else◌,
}
use fabushi_backend.Code.{
  Code, signing_key_required, invalid_descriptor_digest, invalid_signing_artifacts,
  invalid_signing_release,
}
use fabushi_backend.Text.{Text, codes, text_or, is_empty}
use fabushi_backend.Text.Pattern.{digest_pattern}
use fabushi_backend.Json.{Json, Items, Fields, text, number, arr, obj, nil, cons, end, field}
use fabushi_backend.Json.Print.{stringify}
use fabushi_backend.Identity.{RawKey}
use fabushi_backend.Published.{PublicArtifact}
use fabushi_backend.Signing.Rows.{Crypto, Signer}

-- the stable sort by `localeCompare` of the ids
unfoldable pub insert_by_id : Crypto → PublicArtifact → List PublicArtifact → List PublicArtifact
insert_by_id c a [] = a ∷ []
insert_by_id c a (b ∷ rest) =
    let later = insert_by_id c a rest in
    if c.before b.artifact_id a.artifact_id then b ∷ later else a ∷ b ∷ rest

unfoldable pub sort_by_id : Crypto → List PublicArtifact → List PublicArtifact
unfolding insert_by_id
sort_by_id c [] = []
sort_by_id c (a ∷ rest) = insert_by_id c a (sort_by_id c rest)

unfoldable pub signable : PublicArtifact → Bool
signable a = digest_pattern a.digest && leb a.size_bytes (2 ^ 53 - 1) && ltb 0 a.size_bytes

unfoldable pub artifact_fields : PublicArtifact → Fields
artifact_fields a = field (codes "artifactId") (text a.artifact_id) (
    field (codes "digest") (text a.digest) (
      field (codes "sizeBytes") (number a.size_bytes) (
        field (codes "platform") (text a.platform) (
          field (codes "architecture") (text a.architecture) (
            field (codes "format") (text a.format)
              (if is_empty a.url then end else field (codes "url") (text a.url) end))))))

unfoldable pub signed_items : List PublicArtifact → Items
unfolding artifact_fields
signed_items [] = nil
signed_items (a ∷ rest) = cons (obj (artifact_fields a)) (signed_items rest)

-- `!value`
unfoldable pub is_falsy : Option Text → Bool
is_falsy none = true
is_falsy (some s) = is_empty s

unfoldable pub incomplete : RawKey → Bool
unfolding is_falsy
incomplete raw =
    is_falsy raw.kind || is_falsy raw.namespace || is_falsy raw.name || is_falsy raw.version

abbrev pub no_items : List PublicArtifact → Bool
no_items [] = true
no_items (a ∷ rest) = Bool.false

unfoldable pub release_payload : Signer → RawKey → Text → List PublicArtifact → Json
unfolding signed_items
release_payload s identity digest artifacts = obj (
    field (codes "protocol") (text (codes "fabushi.extension-release-signature.v1")) (
      field (codes "keyId") (text s.key_id) (
        field (codes "trustEpoch") (number s.trust_epoch) (
          field (codes "identity")
            (obj (
              field (codes "namespace") (text (text_or identity.namespace [])) (
                field (codes "name") (text (text_or identity.name []))
                  (field (codes "kind") (text (text_or identity.kind [])) end))))
            (field (codes "version") (text (text_or identity.version [])) (
              field (codes "descriptorDigest") (text digest)
                (field (codes "artifacts") (arr (signed_items artifacts)) end)))))))

-- `identity` is the identity of the descriptor with the version of its release
unfoldable pub canonical_payload :
    Crypto → Option Signer → RawKey → Text → List PublicArtifact → Result Code Text
unfolding sort_by_id signable release_payload incomplete
canonical_payload c signer identity digest artifacts = do
  s ← or_throw signer signing_key_required
  throw_if (not (digest_pattern digest)) invalid_descriptor_digest
  throw_if (no_items artifacts || not (every signable artifacts)) invalid_signing_artifacts
  throw_if (incomplete identity) invalid_signing_release
  ok (stringify (release_payload s identity digest (sort_by_id c artifacts)))
