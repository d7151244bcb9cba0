-- ===== src/Tests/History.antt =====
-- A release of the extension `tool` on its way to approval.
use fabushi_backend.Prelude.{ℕ, ◌≡◌, refl, true, List, [], ◌∷◌, Option, none, some, text_beq}
use fabushi_backend.Text
use fabushi_backend.Text.{Text, codes}
use fabushi_backend.Text.Pattern
use fabushi_backend.Table
use fabushi_backend.Identity
use fabushi_backend.Identity.{ReleaseKey, RawKey, key_Eq}
use fabushi_backend.Identity.Laws.{raw_of}
use fabushi_backend.Publisher
use fabushi_backend.Publisher.Secrets
use fabushi_backend.Publisher.Names
use fabushi_backend.Publisher.Calls as Publishers
use fabushi_backend.Release.Rows as Releases
use fabushi_backend.Release.Rows.{Release, approved}
use fabushi_backend.Release.Drafts
use fabushi_backend.Release.Reviews
use fabushi_backend.Artifact.Rows as Artifacts
use fabushi_backend.Artifact.Names as ArtifactNames
use fabushi_backend.Artifact.Bindings
use fabushi_backend.Artifact.Scans
use fabushi_backend.Artifact.Scans.{ScanReport}
use fabushi_backend.Artifact.Uploads
use fabushi_backend.Artifact.Uploads.{Upload}
use fabushi_backend.Signing.Rows as Signing
use fabushi_backend.Signing.Rows.{Signer}
use fabushi_backend.Signing.Payload
use fabushi_backend.Signing.Keys
use fabushi_backend.Signing.Releases as Signatures
use fabushi_backend.Market
use fabushi_backend.Market.{Market, Call, run, empty_market}
use fabushi_backend.Tests.Fixtures.{ascii_locale, toy_platform, toy_entries}

abbrev pub alice : Option Text
alice = some (codes "alice")

abbrev pub tool : ReleaseKey
tool = record {
  kind = codes "plugin";
  namespace = codes "acme";
  name = codes "tool";
  version = codes "1.0.0";
}

abbrev pub creation : Publishers.Request
creation = record {
  namespace = some (codes "acme");
  account = alice;
  call = Publishers.creates none 1;
}

abbrev pub binary : Upload
binary = record {
  artifact_id = some (codes "main");
  platform = none;
  architecture = none;
  format = none;
  bytes = 1 ∷ 2 ∷ [];
  url = none;
}

abbrev pub scan : ScanReport
scan = record {
  artifact_id = some (codes "main");
  state = some (codes "passed");
  scanner = some (codes "scanner");
  scanner_version = some (codes "1");
  expected_digest = none;
  expected_size_bytes = none;
  notes = none;
}

abbrev pub signer : Signer
signer = record {
  private_key = codes "key";
  public_key = codes "key";
  public_key_fingerprint = codes "key";
  key_id = codes "k1";
  trust_epoch = 1;
}

abbrev pub history : List (ℕ × Call RawKey)
history =
    (0, Market.starts (some signer))
    ∷ (1, Market.publishes creation)
    ∷ (2, Market.drafts alice (raw_of tool))
    ∷ (3, Market.uploads alice (raw_of tool) binary)
    ∷ (4, Market.submits alice (raw_of tool))
    ∷ (5, Market.scans (some (codes "bob")) (raw_of tool) scan)
    ∷ (6, Market.reviews true (some (codes "bob")) none (raw_of tool))
    ∷ []

abbrev pub later : List (ℕ × Call RawKey)
later =
    (7, Market.uploads alice (raw_of tool) (record binary { bytes = 3 ∷ [] }))
    ∷ (8, Market.yanks alice none (raw_of tool))
    ∷ []

abbrev pub marketplace : Market RawKey
marketplace = run ascii_locale toy_platform toy_entries (empty_market 10) history

pub tool_approved :
    (row : Release RawKey) × (Table.get marketplace.releases.releases tool ≡ some row)
    × (row.state ≡ approved)
unfolding text_beq Text.is_space Text.drop_space Text.trim Text.text_or Text.or_else Text.is_empty
    Text.has Text.is_ascii_lower Pattern.is_component_start Pattern.is_component_char
    Pattern.component_pattern Pattern.skip_digits Pattern.skip_number Pattern.skip_dot
    Pattern.then_number Pattern.is_suffix_char Pattern.version_suffix Pattern.version_pattern
    Table.get Table.insert Table.update Table.delete Table.upsert Identity.normalized_version
    Identity.normalized_component Identity.normalized_key Identity.release_key
    Identity.artifact_release_key Publisher.truthy Publisher.public_namespace
    Publisher.new_namespace Publisher.add_audit Publisher.owned Publisher.assert_owned
    Publisher.create Secrets.fold_case Secrets.starts_with Secrets.includes Secrets.secret_field
    Names.display_name Names.account_id Names.namespace_name Names.claimable_namespace
    Publishers.dispatch Publishers.step Releases.is_draft Releases.is_pending Releases.is_approved
    Releases.reviewer_name Releases.review_text Releases.add_audit Releases.new_release
    Releases.set_submitted Releases.set_reviewed Drafts.required Drafts.submit Drafts.sanitize
    Drafts.create_draft Reviews.review_payload Reviews.artifacts_for Reviews.review
    Artifacts.is_passed Artifacts.is_pending_scan Artifacts.new_artifact Artifacts.set_scan
    Artifacts.add_audit Artifacts.insert_sorted Artifacts.rows_of Bindings.is_open
    Bindings.size_in_bounds Bindings.open_release Scans.record_scan Scans.list_for_release
    Scans.approval_gate Scans.expects Scans.some_artifact ArtifactNames.scan_result
    ArtifactNames.artifact_id ArtifactNames.optional_component ArtifactNames.artifact_url
    Uploads.check_upload Uploads.upload_new Uploads.upload_checked Uploads.upload Uploads.write_cas
    Uploads.upload_row Market.gate_of Market.step Market.run Secrets.assert_no_secrets
    Drafts.get_release Artifacts.text_lt Pattern.digest_pattern Pattern.is_hex_digit
    Reviews.signature_for Scans.public_artifact Signing.is_active Signing.new_trust_key
    Signing.verify_envelope Payload.insert_by_id Payload.sort_by_id Payload.signable
    Payload.is_falsy Payload.incomplete Payload.release_payload Payload.canonical_payload
    Keys.register_signer Keys.start Signatures.signing_key Signatures.sign_new
    Signatures.new_envelope Signatures.sign_release Market.sign_of Market.after_review
tool_approved = (_, refl, refl)
