-- ===== src/Market.antt =====
-- The stores of the extension marketplace on one SQLite database, as ai-backend/src/miniapp_marketplace_http.js
-- puts them together: publishers, releases, artifacts and signatures, with the artifact store and the
-- signing store attached to the release store (`setArtifactStore`, `setSigningStore`). A request names the method that is called and
-- its raw arguments; a request that throws leaves what its method leaves.
pub mod Steps
pub mod Approval
pub mod Lifecycle
pub mod Immutable
pub mod Named
pub mod Extends
pub mod Signed
use fabushi_backend.Prelude.{
  ℕ, Bool, List, [], ◌∷◌, Option, some, map, Result, ok, err, after, ◌>>=◌,
}
use fabushi_backend.Code.{Code}
use fabushi_backend.Text.{Text, Locale}
use fabushi_backend.Identity.{ReleaseKey, RawKey}
use fabushi_backend.Identity.Laws.{raw_of}
use fabushi_backend.Publisher
use fabushi_backend.Publisher.Calls as Publishers
use fabushi_backend.Release.Rows as Releases
use fabushi_backend.Release.Rows.{Entries}
use fabushi_backend.Release.Drafts.{submit, create_draft, import_reviewed}
use fabushi_backend.Release.Reviews.{Gate, SignRelease, review, yank, revoke}
use fabushi_backend.Artifact.Rows as Artifacts
use fabushi_backend.Artifact.Rows.{Artifact}
use fabushi_backend.Artifact.Names.{Platform}
use fabushi_backend.Artifact.Bindings.{
  External, register_external, register_external_for_review, attach_url,
}
use fabushi_backend.Artifact.Scans.{ScanReport, record_scan, approval_gate, public_artifact}
use fabushi_backend.Signing.Rows as Signing
use fabushi_backend.Signing.Rows.{Signer}
use fabushi_backend.Signing.Keys.{start, revoke_trust_key}
use fabushi_backend.Signing.Releases.{sign_release}
use fabushi_backend.Artifact.Uploads.{Upload, upload}

pub record Market (D : Type 0) : Type 0 where
  pub publishers : Publisher.Store
  pub releases : Releases.Store D
  pub artifacts : Artifacts.Store
  pub signing : Signing.Store

abbrev pub empty_market : {D : Type 0} → ℕ → Market D
empty_market max_bytes = record {
  publishers = Publisher.empty;
  releases = record { releases = []; audit = [] };
  artifacts = record { artifacts = []; audit = []; cas = []; max_artifact_bytes = max_bytes };
  signing = Signing.empty;
}

-- A method of one of the stores with its arguments; `I` is the type of descriptors as they come.
pub data Call (I : Type 0) : Type 0 where
  publishes : Publishers.Request → Call I
  drafts : Option Text → I → Call I
  imports : Option Text → I → Call I
  submits : Option Text → RawKey → Call I
  reviews : Bool → Option Text → Option Text → RawKey → Call I
  yanks revokes : Option Text → Option Text → RawKey → Call I
  uploads : Option Text → RawKey → Upload → Call I
  registers registers_for_review : Option Text → RawKey → External → Call I
  attaches : Option Text → RawKey → Option Text → Option Text → Call I
  scans : Option Text → RawKey → ScanReport → Call I
  starts : Option Signer → Call I
  revokes_key : Option Text → Option ℕ → Option Text → Call I

-- The stores behind a review, which is one transaction.
unfoldable pub after_review :
    {D : Type 0} → Market D → Result Code (Releases.Store D × Signing.Store) → Market D
after_review m (ok (releases, signing)) = record m { releases = releases; signing = signing }
after_review m (err e) = m

module _ (l : Locale) (p : Platform) (en : Entries) where
  -- `this.artifactStore.approvalGate(key)`
  unfoldable pub gate_of : Artifacts.Store → Gate
  unfolding public_artifact
  gate_of artifacts key = do
    rows ← approval_gate l artifacts (raw_of key)
    ok (map public_artifact rows)

  -- `this.signingStore.signRelease({ descriptor, descriptorDigest, artifacts })`
  unfoldable pub sign_of : Signing.Store → ℕ → SignRelease en.Descriptor Signing.Store
  sign_of signing now descriptor digest artifacts =
      sign_release l p.crypto signing (en.identity descriptor) digest artifacts now

  unfoldable pub step : Market en.Descriptor → ℕ × Call en.Input → Market en.Descriptor
  step m (now, publishes r) = record m { publishers = Publishers.step l m.publishers r }
  step m (now, drafts actor input) = record m {
    releases = after m.releases (create_draft l en m.releases m.publishers actor input now);
  }
  step m (now, imports reviewer input) = record m {
    releases = after m.releases (import_reviewed l en m.releases reviewer input now);
  }
  step m (now, submits actor raw) = record m {
    releases = after m.releases (submit l m.releases m.publishers actor raw now);
  }
  step m (now, reviews approve reviewer notes raw) = after_review m (
      review l m.releases m.signing (some (gate_of m.artifacts)) (some (sign_of m.signing now))
        approve reviewer notes raw now)
  step m (now, yanks actor notes raw) = record m {
    releases = after m.releases (yank l m.releases m.publishers actor notes raw now);
  }
  step m (now, revokes reviewer notes raw) = record m {
    releases = after m.releases (revoke l m.releases reviewer notes raw now);
  }
  step m (now, uploads actor raw u) = record m {
    artifacts = (upload l p m.releases m.artifacts m.publishers actor raw u now).0;
  }
  step m (now, registers actor raw e) = record m {
    artifacts =
        after m.artifacts
          (register_external l p m.releases m.artifacts m.publishers actor raw e now);
  }
  step m (now, registers_for_review reviewer raw e) = record m {
    artifacts =
        after m.artifacts
          (register_external_for_review l p m.releases m.artifacts reviewer raw e now);
  }
  step m (now, attaches actor raw id url) = record m {
    artifacts =
        after m.artifacts (attach_url l p m.releases m.artifacts m.publishers actor raw id url now);
  }
  step m (now, scans reviewer raw r) = record m {
    artifacts = after m.artifacts (record_scan l m.artifacts reviewer raw r now);
  }
  step m (now, starts signer) = record m { signing = after m.signing (start m.signing signer now) }
  step m (now, revokes_key id epoch reason) = record m {
    signing = after m.signing (revoke_trust_key m.signing id epoch reason now);
  }

  unfoldable pub run : Market en.Descriptor → List (ℕ × Call en.Input) → Market en.Descriptor
  run m [] = m
  run m (c ∷ cs) = run (step m c) cs
