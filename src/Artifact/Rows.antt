-- ===== src/Artifact/Rows.antt =====
-- The rows of the artifact store and the statements that read and write them.
use fabushi_backend.Prelude.{
  ℕ, suc, Bool, true, false, ◌&&◌, ◌||◌, List, [], ◌∷◌, ◌++◌, Option, none, some, length, ltb,
  nat_beq, pair_Eq, text_Eq, ◌==◌, if◌then◌else◌,
}
use fabushi_backend.Text.{Text, codes}
use fabushi_backend.Json.{Json, Fields, text, number, obj, end, field}
use fabushi_backend.Table.{Table}
use fabushi_backend.Identity.{ReleaseKey, key_Eq}

-- SCAN_STATES
pub data ScanState : Type 0 where
  pending passed rejected : ScanState

unfoldable pub is_passed : ScanState → Bool
is_passed passed = true
is_passed _ = false

unfoldable pub is_pending_scan : ScanState → Bool
is_pending_scan pending = true
is_pending_scan _ = false

-- A row of `extension_release_artifacts`, less its key.
pub record Artifact : Type 0 where
  pub digest : Text
  pub size_bytes : ℕ
  pub platform : Text
  pub architecture : Text
  pub format : Text
  pub artifact_url : Text
  pub scan_state : ScanState
  pub scanner : Option Text
  pub scanner_version : Option Text
  pub scan_notes : Text
  pub scanned_at_ms : Option ℕ
  pub created_at_ms : ℕ

pub data Action : Type 0 where
  uploaded registered url_bound : Action
  scanned : ScanState → Action

-- A row of `extension_artifact_audit`.
pub record AuditEntry : Type 0 where
  pub sequence : ℕ
  pub digest : Text
  pub action : Action
  pub actor : Text
  pub payload : Json
  pub occurred_at_ms : ℕ

-- The tables, the content-addressed files under `casRoot` by their digest, and the size limit.
pub record Store : Type 0 where
  pub artifacts : Table (ReleaseKey × Text) Artifact
  pub audit : List AuditEntry
  pub cas : Table Text (List ℕ)
  pub max_artifact_bytes : ℕ

-- The statement `insertBinding`.
pub record Binding : Type 0 where
  pub digest : Text
  pub size_bytes : ℕ
  pub platform : Text
  pub architecture : Text
  pub format : Text
  pub url : Text

unfoldable pub new_artifact : Binding → ℕ → Artifact
new_artifact b now = record {
  digest = b.digest;
  size_bytes = b.size_bytes;
  platform = b.platform;
  architecture = b.architecture;
  format = b.format;
  artifact_url = b.url;
  scan_state = pending;
  scanner = none;
  scanner_version = none;
  scan_notes = [];
  scanned_at_ms = none;
  created_at_ms = now;
}

-- The statements `setArtifactUrl` and `scan`.
unfoldable pub set_url : Text → Artifact → Artifact
set_url url row = record row { artifact_url = url }

unfoldable pub set_scan : ScanState → Text → Text → Text → ℕ → Artifact → Artifact
set_scan state scanner version notes now row = record row {
  scan_state = state;
  scanner = some scanner;
  scanner_version = some version;
  scan_notes = notes;
  scanned_at_ms = some now;
}

-- `#audit`
unfoldable pub add_audit : Store → Text → Action → Text → Json → ℕ → Store
add_audit st digest action actor payload now = record st {
  audit =
      st.audit
      ++ record {
        sequence = suc (length st.audit);
        digest = digest;
        action = action;
        actor = actor;
        payload = payload;
        occurred_at_ms = now;
      }
        ∷ [];
}

-- `{...key, artifactId: id, …rest}`
unfoldable pub key_payload : ReleaseKey → Text → Fields → Json
key_payload key id rest = obj (
    field (codes "kind") (text key.kind) (
      field (codes "namespace") (text key.namespace) (
        field (codes "name") (text key.name) (
          field (codes "version") (text key.version) (field (codes "artifactId") (text id) rest)))))

unfoldable pub url_field : Text → Fields
url_field url = field (codes "url") (text url) end

unfoldable pub size_fields : ℕ → Fields → Fields
size_fields size rest = field (codes "sizeBytes") (number size) rest

-- ORDER BY artifact_id ASC, in SQLite's binary order
unfoldable pub text_lt : Text → Text → Bool
text_lt s [] = false
text_lt [] (d ∷ t) = true
text_lt (c ∷ s) (d ∷ t) = ltb c d || (nat_beq c d && text_lt s t)

unfoldable pub insert_sorted : Text × Artifact → List (Text × Artifact) → List (Text × Artifact)
unfolding text_lt
insert_sorted a [] = a ∷ []
insert_sorted a (b ∷ rest) = if text_lt b.0 a.0 then b ∷ insert_sorted a rest else a ∷ b ∷ rest

-- `listRelease`
unfoldable pub rows_of : Table (ReleaseKey × Text) Artifact → ReleaseKey → List (Text × Artifact)
unfolding insert_sorted
rows_of [] key = []
rows_of (((k, id), row) ∷ t) key =
    let rest = rows_of t key in if k == key then insert_sorted (id, row) rest else rest
