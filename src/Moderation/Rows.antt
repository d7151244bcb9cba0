-- ===== src/Moderation/Rows.antt =====
-- The rows of the moderation store and the statements that write and look for them.
use fabushi_backend.Prelude.{
  ℕ, Bool, true, false, ◌&&◌, ◌||◌, List, [], ◌∷◌, Option, none, some, not, text_Eq, ◌==◌,
}
use fabushi_backend.Json.{Json}
use fabushi_backend.Text.{Text}
use fabushi_backend.Table.{Table}
use fabushi_backend.Identity.{ReleaseKey, key_Eq}

-- CASE_TYPES
pub data CaseType : Type 0 where
  report appeal : CaseType

-- REPORT_STATES and APPEAL_STATES
pub data CaseState : Type 0 where
  open_case dismissed actioned accepted rejected : CaseState

unfoldable pub is_report : CaseType → Bool
is_report report = true
is_report appeal = false

unfoldable pub is_open_case : CaseState → Bool
is_open_case open_case = true
is_open_case _ = false

unfoldable pub is_actioned : CaseState → Bool
is_actioned actioned = true
is_actioned _ = false

-- A row of `extension_moderation_cases`, less its id.
pub record Case : Type 0 where
  pub case_type : CaseType
  pub state : CaseState
  pub key : ReleaseKey
  pub reporter_account_id : Option Text
  pub appellant_account_id : Option Text
  pub reason_code : Option Text
  pub details : Text
  pub parent_case_id : Option Text
  pub reviewer : Option Text
  pub resolution : Text
  pub created_at_ms : ℕ
  pub updated_at_ms : ℕ
  pub resolved_at_ms : Option ℕ

pub data Action : Type 0 where
  report_created appeal_created : Action
  resolved : CaseType → CaseState → Action

-- A row of `extension_moderation_audit`.
pub record AuditEntry : Type 0 where
  pub sequence : ℕ
  pub case_id : Text
  pub action : Action
  pub actor : Text
  pub payload : Json
  pub occurred_at_ms : ℕ

pub record Store : Type 0 where
  pub cases : Table Text Case
  pub audit : List AuditEntry

-- SELECT … LIMIT 1 of the rows that pass a test
unfoldable pub some_case : (Case → Bool) → Table Text Case → Bool
some_case test [] = false
some_case test ((id, row) ∷ rest) = test row || some_case test rest

-- The statement `duplicateReport`.
unfoldable pub duplicate_report : Table Text Case → Text → ReleaseKey → Bool
unfolding some_case
duplicate_report cases reporter key =
    some_case
      (λ row.
        is_report row.case_type
        && is_open_case row.state
        && (elim row.reporter_account_id [ none ↦ false | some account ↦ account == reporter ])
        && (row.key == key))
      cases

-- The statement `duplicateAppeal`.
unfoldable pub duplicate_appeal : Table Text Case → Text → Bool
unfolding some_case
duplicate_appeal cases parent =
    some_case
      (λ row.
        not (is_report row.case_type)
        && is_open_case row.state
        && (elim row.parent_case_id [ none ↦ false | some id ↦ id == parent ]))
      cases

-- The statement `insert`, for a report and for an appeal.
unfoldable pub new_report : ReleaseKey → Text → Text → Text → ℕ → Case
new_report key reporter reason details now = record {
  case_type = report;
  state = open_case;
  key = key;
  reporter_account_id = some reporter;
  appellant_account_id = none;
  reason_code = some reason;
  details = details;
  parent_case_id = none;
  reviewer = none;
  resolution = [];
  created_at_ms = now;
  updated_at_ms = now;
  resolved_at_ms = none;
}

unfoldable pub new_appeal : Text → Case → Text → Text → ℕ → Case
new_appeal parent filed appellant details now = record {
  case_type = appeal;
  state = open_case;
  key = filed.key;
  reporter_account_id = none;
  appellant_account_id = some appellant;
  reason_code = none;
  details = details;
  parent_case_id = some parent;
  reviewer = none;
  resolution = [];
  created_at_ms = now;
  updated_at_ms = now;
  resolved_at_ms = none;
}

-- What the statement `resolve` sets.
unfoldable pub set_resolved : CaseState → Text → Text → ℕ → Case → Case
set_resolved state reviewer resolution now row = record row {
  state = state;
  reviewer = some reviewer;
  resolution = resolution;
  resolved_at_ms = some now;
  updated_at_ms = now;
}
