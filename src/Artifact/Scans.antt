-- ===== src/Artifact/Scans.antt =====
-- The security scan and the gate that it is for: `recordScan`, `listForRelease`, `approvalGate`.
use fabushi_backend.Prelude.{
  ℕ, Bool, true, false, ◌&&◌, ◌||◌, not, List, [], ◌∷◌, Option, none, some, take, every, nat_beq,
  text_Eq, pair_Eq, ◌==◌, Result, ok, throw_if, or_throw, ◌>>=◌, ◌>>◌,
}
use fabushi_backend.Code.{
  Code, artifact_not_found, artifact_binding_conflict, scan_already_final, invalid_scanner,
  artifact_required, artifact_scan_required,
}
use fabushi_backend.Json.{text, end, field}
use fabushi_backend.Text.{Text, codes, trim, text_or, is_empty, Locale}
use fabushi_backend.Table
use fabushi_backend.Identity.{RawKey, key_Eq, artifact_release_key}
use fabushi_backend.Artifact.Rows.{
  Artifact, Store, set_scan, add_audit, key_payload, scanned, is_passed, is_pending_scan, rows_of,
}
use fabushi_backend.Published.{PublicArtifact}
use fabushi_backend.Artifact.Names.{artifact_id, scan_result}

-- What a scanner reports. Sizes are integers.
pub record ScanReport : Type 0 where
  pub artifact_id : Option Text
  pub state : Option Text
  pub scanner : Option Text
  pub scanner_version : Option Text
  pub expected_digest : Option Text
  pub expected_size_bytes : Option ℕ
  pub notes : Option Text

-- an expectation that is given must hold of the row
unfoldable pub expects_digest : Option Text → Artifact → Bool
expects_digest none row = true
expects_digest (some digest) row = digest == row.digest

unfoldable pub expects_size : Option ℕ → Artifact → Bool
expects_size none row = true
expects_size (some size) row = nat_beq size row.size_bytes

unfoldable pub expects : ScanReport → Artifact → Bool
unfolding expects_digest expects_size
expects r row = expects_digest r.expected_digest row && expects_size r.expected_size_bytes row

-- no artifact, or one that has not passed
unfoldable pub some_artifact : List (Text × Artifact) → Bool
some_artifact [] = false
some_artifact (a ∷ rest) = true

abbrev pub all_passed : List (Text × Artifact) → Bool
all_passed = every λ a. is_passed a.1.scan_state

module _ (l : Locale) (st : Store) where
  unfoldable pub record_scan : Option Text → RawKey → ScanReport → ℕ → Result Code Store
  unfolding expects
  record_scan reviewer raw r now = do
    key ← artifact_release_key l raw
    id ← artifact_id l r.artifact_id
    state ← scan_result (l.lower (trim (text_or r.state [])))
    existing ← or_throw (Table.get st.artifacts (key, id)) artifact_not_found
    throw_if (not (expects r existing)) artifact_binding_conflict
    throw_if (not (is_pending_scan existing.scan_state)) scan_already_final
    let scanner = take 160 (trim (text_or r.scanner []))
    let version = take 160 (trim (text_or r.scanner_version []))
    throw_if (is_empty scanner || is_empty version) invalid_scanner
    ok (
        add_audit
          (record st {
            artifacts =
                Table.update st.artifacts (key, id)
                  (set_scan state scanner version (take 4000 (trim (text_or r.notes []))) now);
          })
          existing.digest (scanned state) (text_or reviewer [])
          (key_payload key id (
            field (codes "scanner") (text scanner)
              (field (codes "scannerVersion") (text version) end)))
          now)

  unfoldable pub list_for_release : RawKey → Result Code (List (Text × Artifact))
  list_for_release raw = do key ← artifact_release_key l raw; ok (rows_of st.artifacts key)

  unfoldable pub approval_gate : RawKey → Result Code (List (Text × Artifact))
  unfolding list_for_release some_artifact
  approval_gate raw = do
    artifacts ← list_for_release raw
    throw_if (not (some_artifact artifacts)) artifact_required
    throw_if (not (all_passed artifacts)) artifact_scan_required
    ok artifacts

-- `publicArtifact` of a row that is there
unfoldable pub public_artifact : Text × Artifact → PublicArtifact
public_artifact (id, row) = record {
  artifact_id = id;
  digest = row.digest;
  size_bytes = row.size_bytes;
  platform = row.platform;
  architecture = row.architecture;
  format = row.format;
  url = row.artifact_url;
}
