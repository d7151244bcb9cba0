-- ===== src/Moderation/Reports.antt =====
-- `createReport` and `resolveReport`, with `#require` and `#audit`.
use fabushi_backend.Prelude.{
  ℕ, suc, Bool, true, false, not, [], ◌∷◌, ◌++◌, Option, none, some, length, text_Eq, Result, ok,
  err, throw_if, or_throw, ◌>>=◌, ◌>>◌, if◌then◌else◌,
}
use fabushi_backend.Code.{
  Code, moderation_release_not_found, duplicate_open_report, case_not_found, wrong_case_type,
  case_already_resolved, invalid_moderation_decision, release_not_actionable,
}
use fabushi_backend.Json.{Json, text, obj, end, field}
use fabushi_backend.Text.{Text, codes, or_else, Locale}
use fabushi_backend.Table
use fabushi_backend.Identity.{RawKey, ReleaseKey}
use fabushi_backend.Identity.Laws.{raw_of}
use fabushi_backend.Release.Rows as Releases
use fabushi_backend.Release.Rows.{Release, State, is_approved}
use fabushi_backend.Release.Drafts.{get_release}
use fabushi_backend.Release.Reviews.{revoke}
use fabushi_backend.Moderation.Rows.{
  Case, CaseState, CaseType, report, is_report, is_open_case, actioned, dismissed, Action,
  report_created, resolved, Store, duplicate_report, new_report, set_resolved,
}
use fabushi_backend.Moderation.Names.{
  bounded, case_id, moderation_account, moderation_key, moderation_reviewer, report_reason, decided,
}

unfoldable pub is_revoked : State → Bool
is_revoked Releases.revoked = true
is_revoked _ = false

-- `#require`
unfoldable pub required_case : Store → Option Text → Result Code (Text × Case)
required_case st raw = do
  id ← case_id raw
  row ← or_throw (Table.get st.cases id) case_not_found
  ok (id, row)

-- `#audit`
unfoldable pub add_audit : Store → Text → Action → Text → Json → ℕ → Result Code Store
add_audit st id action actor payload now = do
  name ← bounded true (some actor) 240
  ok (record st {
    audit =
        st.audit
        ++ record {
          sequence = suc (length st.audit);
          case_id = id;
          action = action;
          actor = name;
          payload = payload;
          occurred_at_ms = now;
        }
          ∷ [];
  })

-- The transaction that resolves a case: the statement `resolve`, the test of its changes, the audit.
unfoldable pub resolve_case :
    Store → Text → Case → CaseType → CaseState → Text → Text → Text → ℕ → Result Code Store
unfolding add_audit
resolve_case st id row type state reviewer resolution decision now = do
  throw_if (not (is_open_case row.state)) case_already_resolved
  add_audit
      (record st { cases = Table.update st.cases id (set_resolved state reviewer resolution now) })
      id (resolved type state) (codes "reviewer:" ++ reviewer)
      (obj (field (codes "decision") (text decision) end)) now

-- The arguments of a report; `id` is the new identifier (crypto.randomUUID).
pub record Report : Type 0 where
  pub reporter : Option Text
  pub release : RawKey
  pub reason : Option Text
  pub details : Option Text

pub record Verdict : Type 0 where
  pub case_id : Option Text
  pub decision : Option Text
  pub reviewer : Option Text
  pub resolution : Option Text

-- A verdict on a report that passed the checks.
pub record Ruling : Type 0 where
  pub id : Text
  pub row : Case
  pub revokes : Bool
  pub reviewer : Text
  pub resolution : Text
  pub key : ReleaseKey

module _ (l : Locale) {D : Type 0} (releases : Releases.Store D) (st : Store) where
  unfoldable pub create_report : Report → Text → ℕ → Result Code Store
  unfolding add_audit
  create_report r id now = do
    reporter ← moderation_account r.reporter
    key ← moderation_key l r.release
    found ← get_release l releases (raw_of key)
    release ← or_throw found moderation_release_not_found
    reason ← report_reason l r.reason
    details ← bounded false r.details 4000
    throw_if (duplicate_report st.cases reporter key) duplicate_open_report
    add_audit
        (record st {
          cases = Table.insert st.cases id (new_report key reporter reason details now);
        })
        id report_created (codes "account:" ++ reporter)
        (obj (field (codes "reasonCode") (text reason) end)) now

  -- what `resolveReport` tests before it touches the release
  unfoldable pub ruling : Verdict → Result Code Ruling
  unfolding required_case
  ruling v = do
    (id, row) ← required_case st v.case_id
    throw_if (not (is_report row.case_type)) wrong_case_type
    throw_if (not (is_open_case row.state)) case_already_resolved
    revokes ← decided l (codes "revoke") (codes "dismiss") invalid_moderation_decision v.decision
    reviewer ← moderation_reviewer v.reviewer
    resolution ← bounded false v.resolution 4000
    key ← moderation_key l (raw_of row.key)
    ok (record {
      id = id;
      row = row;
      revokes = revokes;
      reviewer = reviewer;
      resolution = resolution;
      key = key;
    })

  -- the withdrawal of a release that is there
  unfoldable pub withdraw : Ruling → Release D → ℕ → Result Code (Releases.Store D)
  withdraw c release now =
      if is_approved release.state
      then revoke l releases (some c.reviewer)
          (some (or_else c.resolution (codes "moderation case " ++ c.id))) (raw_of c.key) now
      else if is_revoked release.state
      then ok releases
      else err release_not_actionable

  unfoldable pub act : Ruling → ℕ → Result Code (Releases.Store D)
  unfolding withdraw is_revoked
  act c now = do
    found ← get_release l releases (raw_of c.key)
    release ← or_throw found moderation_release_not_found
    withdraw c release now

  -- the releases, the cases, and the error if the call throws
  abbrev pub Outcome : Type 0
  Outcome = Releases.Store D × Store × Option Code

  abbrev pub settle : Releases.Store D → Result Code Store → Outcome
  settle kept (ok st') = (kept, st', none)
  settle kept (err e) = (kept, st, some e)

  unfoldable pub resolve_ruling : Ruling → ℕ → Outcome
  unfolding act resolve_case
  resolve_ruling c now = elim (if c.revokes then act c now else ok releases) [
    | err e ↦ (releases, st, some e)
    | ok kept ↦ settle kept (
        resolve_case st c.id c.row report (if c.revokes then actioned else dismissed) c.reviewer
          c.resolution (if c.revokes then codes "revoke" else codes "dismiss") now)
  ]

  -- The withdrawal is a transaction of its own, so it stays if the call throws after it.
  unfoldable pub resolve_report : Verdict → ℕ → Outcome
  unfolding ruling resolve_ruling
  resolve_report v now = elim (ruling v) [
    | err e ↦ (releases, st, some e)
    | ok c ↦ resolve_ruling c now
  ]
