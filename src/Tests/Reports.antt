-- ===== src/Tests/Reports.antt =====
-- A report on an approved release and the verdict that withdraws the release.
use fabushi_backend.Prelude.{
  ◌∷◌, ◌≡◌, refl, true, false, [], none, some, ok, after, text_beq, text_Eq,
}
use fabushi_backend.Code.{invalid_moderation_decision}
use fabushi_backend.Text
use fabushi_backend.Text.{Text, codes}
use fabushi_backend.Text.Pattern
use fabushi_backend.Table
use fabushi_backend.Identity
use fabushi_backend.Identity.{RawKey, key_Eq}
use fabushi_backend.Identity.Laws.{raw_of}
use fabushi_backend.Release.Rows as Releases
use fabushi_backend.Release.Drafts
use fabushi_backend.Release.Reviews
use fabushi_backend.Moderation.Rows as Cases
use fabushi_backend.Moderation.Rows.{Case, Store, is_open_case}
use fabushi_backend.Moderation.Names as CaseNames
use fabushi_backend.Moderation.Names.{decided, case_id}
use fabushi_backend.Moderation.Reports
use fabushi_backend.Moderation.Reports.{Report, Verdict, Outcome, create_report, resolve_report}
use fabushi_backend.Tests.Fixtures.{ascii_locale}
use fabushi_backend.Tests.History.{tool}

-- A release store whose one release is approved.
abbrev pub catalog : Releases.Store RawKey
catalog = record {
  releases =
      (
        tool,
        record {
          state = Releases.approved;
          descriptor = raw_of tool;
          descriptor_digest = [];
          publisher_account_id = codes "alice";
          created_at_ms = 1;
          updated_at_ms = 2;
          submitted_at_ms = some 2;
          reviewed_at_ms = some 2;
          revoked_at_ms = none;
          reviewer = some (codes "bob");
          review_notes = [];
        },
      )
      ∷ [];
  audit = [];
}

abbrev pub complaint : Report
complaint = record {
  reporter = some (codes "carol");
  release = raw_of tool;
  reason = some (codes "Malware");
  details = none;
}

abbrev pub complaint_id : Text
complaint_id = codes "00000000-0000-4000-8000-000000000001"

abbrev pub complaints : Store
complaints =
    after (record { cases = []; audit = [] })
      (create_report ascii_locale catalog (record { cases = []; audit = [] }) complaint complaint_id
        10)

abbrev pub verdict : Verdict
verdict = record {
  case_id = some complaint_id;
  decision = some (codes "REVOKE");
  reviewer = none;
  resolution = none;
}

abbrev pub ruled : Outcome ascii_locale catalog complaints
ruled = resolve_report ascii_locale catalog complaints verdict 11

-- The verdict is carried out, and the case is then closed.
pub complaint_ruled :
    (ruled ≡ (ruled.0, ruled.1, none))
    × (decided ascii_locale
          (codes "revoke")
          (codes "dismiss")
          invalid_moderation_decision
          verdict.decision
        ≡ ok true)
    × (case_id verdict.case_id ≡ ok complaint_id)
    × ((row : Case) × (Table.get ruled.1.cases complaint_id ≡ some row)
        × (is_open_case row.state ≡ false))
unfolding text_beq Text.is_space Text.drop_space Text.trim Text.text_or Text.or_else Text.is_empty
    Text.has Text.is_ascii_lower Pattern.is_component_start Pattern.is_component_char
    Pattern.component_pattern Pattern.skip_digits Pattern.skip_number Pattern.skip_dot
    Pattern.then_number Pattern.is_suffix_char Pattern.version_suffix Pattern.version_pattern
    Table.get Table.insert Table.update Table.delete Table.upsert Identity.normalized_version
    Identity.normalized_component Identity.normalized_key Identity.release_key Releases.is_draft
    Releases.is_pending Releases.is_approved Releases.reviewer_name Releases.review_text
    Releases.add_audit Releases.new_release Releases.set_submitted Releases.set_reviewed
    Drafts.required Drafts.submit Drafts.sanitize Drafts.create_draft Reviews.review_payload
    Reviews.artifacts_for Reviews.review Drafts.get_release Cases.is_report Cases.is_open_case
    Cases.is_actioned Cases.some_case Cases.duplicate_report Cases.new_report Cases.set_resolved
    CaseNames.bounded CaseNames.is_case_char CaseNames.case_id CaseNames.moderation_account
    CaseNames.moderation_version CaseNames.moderation_reviewer CaseNames.moderation_component
    CaseNames.moderation_key CaseNames.report_reason CaseNames.decided Reports.is_revoked
    Reports.required_case Reports.add_audit Reports.resolve_case Reports.create_report
    Reports.ruling Reports.withdraw Reports.act Reports.resolve_ruling Reports.resolve_report
    Releases.set_revoked Reviews.revoke Reviews.revoke_row Pattern.is_hex_digit
complaint_ruled = (refl, refl, refl, (_, refl, refl))
