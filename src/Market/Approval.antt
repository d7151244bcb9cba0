-- ===== src/Market/Approval.antt =====
-- What approval promises: the artifacts of an approved release are there and have all passed the
-- security scan, and stay so.
use fabushi_backend.Prelude.{ℕ, ◌≡◌, ◌⊎◌, inl, inr, true, List, [], ◌∷◌, some, arith, ok}
use fabushi_backend.Text.{Locale}
use fabushi_backend.Table
use fabushi_backend.Table.{Table, get-update, get-insert}
use fabushi_backend.Identity.{ReleaseKey, key_Eq, artifact_release_key}
use fabushi_backend.Identity.Laws.{IsNormal, normalized_key_again}
use fabushi_backend.Code.{invalid_artifact_identity, invalid_artifact_version}
use fabushi_backend.Release.Rows.{approved, revoked, Release, Entries}
use fabushi_backend.Artifact.Rows as Artifacts
use fabushi_backend.Artifact.Rows.{Artifact, rows_of}
use fabushi_backend.Published.{PublicArtifact}
use fabushi_backend.Artifact.Names.{Platform}
use fabushi_backend.Artifact.Scans.{some_artifact, all_passed, approval_gate}
use fabushi_backend.Market.Steps.{was_approved_at, step_origin, step_rows}
use fabushi_backend.Market.{Market, Call, step, run, gate_of, empty_market}

-- There is an artifact, and the security scan has passed each.
abbrev pub IsScanned : Artifacts.Store → ReleaseKey → Type 0
IsScanned artifacts key =
    (some_artifact (rows_of artifacts.artifacts key) ≡ true)
    × (all_passed (rows_of artifacts.artifacts key) ≡ true)

pub record IsClean {D : Type 0} (m : Market D) : Type 0 where
  pub scanned :
      (key : ReleaseKey) → was_approved_at m.releases key ≡ true → IsScanned m.artifacts key

gate-IsScanned :
    (l : Locale) (p : Platform) (en : Entries) (artifacts : Artifacts.Store) (key : ReleaseKey)
    {ids : List PublicArtifact}
    → IsNormal key
    → gate_of l p en artifacts key ≡ ok ids
    → IsScanned artifacts key
unfolding gate_of approval_gate artifact_release_key
gate-IsScanned l p en artifacts key n h =
    ground (arith, normalized_key_again l invalid_artifact_identity invalid_artifact_version key n)

module _ (l : Locale) (p : Platform) (en : Entries) where
  -- Every request keeps it: an artifact must pass before its release is approved, and afterwards
  -- neither the artifacts nor their verdicts change.
  pub step-IsClean :
      (m : Market en.Descriptor) (now : ℕ) (c : Call en.Input)
      → IsClean m
      → IsClean (step l p en m (now, c))
  step-IsClean m now c v = record {
    scanned = λ j h. elim (step_origin l p en m now c j h) [
      | inl old ↦
          let passed = v.scanned j old in rw (step_rows l p en m now c j passed.1 old) passed
      | inr a ↦ rw a.kept (gate-IsScanned l p en m.artifacts j a.normal a.gate)
    ];
  }

  pub run-IsClean :
      (m : Market en.Descriptor) (cs : List (ℕ × Call en.Input))
      → IsClean m
      → IsClean (run l p en m cs)
  unfolding run
  run-IsClean m [] v = v
  run-IsClean m ((now, c) ∷ cs) v = run-IsClean (step l p en m (now, c)) cs (step-IsClean m now c v)

  pub IsClean-empty : (max_bytes : ℕ) → IsClean (empty_market {D = en.Descriptor} max_bytes)
  IsClean-empty max_bytes = record { scanned = λ key h. absurd (unfold Table.get in cc) }

  -- After any history of requests to an empty marketplace, valid or not, a release that is
  -- approved, or was and has been withdrawn, has an artifact, and all of its artifacts have passed
  -- the security scan.
  pub approved_scanned :
      (max_bytes : ℕ) (cs : List (ℕ × Call en.Input)) (key : ReleaseKey)
      (row : Release en.Descriptor)
      → let m = run l p en (empty_market max_bytes) cs in
        Table.get m.releases.releases key ≡ some row
        → (row.state ≡ approved) ⊎ (row.state ≡ revoked)
        → (some_artifact (rows_of m.artifacts.artifacts key) ≡ true)
          × (all_passed (rows_of m.artifacts.artifacts key) ≡ true)
  approved_scanned max_bytes cs key row there state =
      (run-IsClean (empty_market max_bytes) cs (IsClean-empty max_bytes)).scanned key (ground arith)
