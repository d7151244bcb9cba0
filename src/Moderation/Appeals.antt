-- ===== src/Moderation/Appeals.antt =====
-- `createAppeal` and `resolveAppeal`.
use fabushi_backend.Prelude.{
  ℕ, true, false, not, ◌||◌, ◌++◌, Option, some, text_Eq, Result, throw_if, ◌>>=◌, ◌>>◌,
  if◌then◌else◌,
}
use fabushi_backend.Code.{
  Code, report_not_appealable, duplicate_open_appeal, wrong_case_type, case_already_resolved,
  invalid_moderation_decision,
}
use fabushi_backend.Json.{text, obj, end, field}
use fabushi_backend.Text.{Text, codes, Locale}
use fabushi_backend.Table
use fabushi_backend.Publisher
use fabushi_backend.Publisher.{assert_owned}
use fabushi_backend.Moderation.Rows.{
  Store, is_report, is_open_case, is_actioned, accepted, rejected, appeal, appeal_created,
  duplicate_appeal, new_appeal,
}
use fabushi_backend.Moderation.Names.{bounded, moderation_account, moderation_reviewer, decided}
use fabushi_backend.Moderation.Reports.{required_case, add_audit, resolve_case, Verdict}

module _ (l : Locale) (st : Store) where
  unfoldable pub create_appeal :
      Publisher.Store → Option Text → Option Text → Option Text → Text → ℕ → Result Code Store
  create_appeal publishers report_case_id actor_account details id now = do
    (parent, filed) ← required_case st report_case_id
    throw_if (not (is_report filed.case_type) || not (is_actioned filed.state))
        report_not_appealable
    actor ← moderation_account actor_account
    shown ← assert_owned l publishers (some filed.key.namespace) (some actor)
    throw_if (duplicate_appeal st.cases parent) duplicate_open_appeal
    reasons ← bounded true details 4000
    add_audit
        (record st { cases = Table.insert st.cases id (new_appeal parent filed actor reasons now) })
        id appeal_created (codes "account:" ++ actor)
        (obj (field (codes "reportCaseId") (text parent) end)) now

  unfoldable pub resolve_appeal : Verdict → ℕ → Result Code Store
  resolve_appeal v now = do
    (id, row) ← required_case st v.case_id
    throw_if (is_report row.case_type) wrong_case_type
    throw_if (not (is_open_case row.state)) case_already_resolved
    accepts ← decided l (codes "accept") (codes "reject") invalid_moderation_decision v.decision
    reviewer ← moderation_reviewer v.reviewer
    resolution ← bounded false v.resolution 4000
    resolve_case st id row appeal (if accepts then accepted else rejected) reviewer resolution
        (if accepts then codes "accept" else codes "reject") now
