-- ===== src/Release/Rows.antt =====
-- The rows of the release store (ai-backend/src/extension_release_store.js) and the statements
-- that write them.

use fabushi_backend.Prelude.{
  ℕ, suc, ◌≡◌, Bool, true, false, List, [], ◌∷◌, ◌++◌, Option, none, some, length, take, text_Eq,
  Result, ok,
}
use fabushi_backend.Code.{Code}
use fabushi_backend.Text.{Text, codes, trim, text_or, or_else}
use fabushi_backend.Json.{Json, text, obj, end, field}
use fabushi_backend.Table.{Table}
use fabushi_backend.Identity.{ReleaseKey, RawKey, key_Eq}

-- RELEASE_STATES
pub data State : Type 0 where
  draft pending_review approved rejected revoked : State

unfoldable pub is_draft : State → Bool
is_draft draft = true
is_draft _ = false

unfoldable pub is_pending : State → Bool
is_pending pending_review = true
is_pending _ = false

unfoldable pub is_approved : State → Bool
is_approved approved = true
is_approved _ = false

-- A row of `extension_releases`, less its key. `D` is the type of sanitised descriptors.
pub record Release (D : Type 0) : Type 0 where
  pub state : State
  pub descriptor : D
  pub descriptor_digest : Text
  pub publisher_account_id : Text
  pub created_at_ms : ℕ
  pub updated_at_ms : ℕ
  pub submitted_at_ms : Option ℕ
  pub reviewed_at_ms : Option ℕ
  pub revoked_at_ms : Option ℕ
  pub reviewer : Option Text
  pub review_notes : Text

pub data Action : Type 0 where
  created submitted reviewed_approved reviewed_rejected yanked revoked_by_review : Action

-- A row of `extension_release_audit`.
pub record AuditEntry : Type 0 where
  pub sequence : ℕ
  pub key : ReleaseKey
  pub action : Action
  pub actor : Text
  pub payload : Json
  pub occurred_at_ms : ℕ

pub record Store (D : Type 0) : Type 0 where
  pub releases : Table ReleaseKey (Release D)
  pub audit : List AuditEntry

-- What the store uses of the registry (ai-backend/src/extension_registry.js): the sanitised
-- descriptor of an input under a namespace, its identity and the digest of its JSON text.
pub record Entries : Type 1 where
  pub Input : Type 0
  pub Descriptor : Type 0
  pub input_namespace : Input → Option Text
  pub normalize : Text → Input → Result Code Descriptor
  pub identity : Descriptor → RawKey
  pub digest : Descriptor → Text
  -- the sanitised identity keeps the namespace that it is given
  pub normalize_namespace :
      (n : Text) (i : Input) (d : Descriptor)
      → normalize n i ≡ ok d
      → (identity d).namespace ≡ some n

-- `String(reviewer ?? 'marketplace-reviewer').trim().slice(0, 160) || 'marketplace-reviewer'`
unfoldable pub reviewer_name : Option Text → Text
reviewer_name reviewer =
    or_else (take 160 (trim (text_or reviewer (codes "marketplace-reviewer"))))
      (codes "marketplace-reviewer")

-- the actor of an import, `review:…`
unfoldable pub import_actor : Option Text → Text
import_actor reviewer = codes "review:" ++ reviewer_name reviewer

-- `String(notes ?? '').trim().slice(0, 4000)`
unfoldable pub review_text : Option Text → Text
review_text notes = take 4000 (trim (text_or notes []))

-- `#audit`
unfoldable pub add_audit : {D : Type 0} → Store D → ReleaseKey → Action → Text → Json → ℕ → Store D
add_audit st key action actor payload now = record st {
  audit =
      st.audit
      ++ record {
        sequence = suc (length st.audit);
        key = key;
        action = action;
        actor = actor;
        payload = payload;
        occurred_at_ms = now;
      }
        ∷ [];
}

-- The statement `insert`.
unfoldable pub new_release : {D : Type 0} → D → Text → Text → ℕ → Release D
new_release descriptor digest publisher now = record {
  state = draft;
  descriptor = descriptor;
  descriptor_digest = digest;
  publisher_account_id = publisher;
  created_at_ms = now;
  updated_at_ms = now;
  submitted_at_ms = none;
  reviewed_at_ms = none;
  revoked_at_ms = none;
  reviewer = none;
  review_notes = [];
}

-- The statements `submit`, `review` and `revoke`.
unfoldable pub set_submitted : {D : Type 0} → ℕ → Release D → Release D
set_submitted now row = record row {
  state = pending_review;
  submitted_at_ms = some now;
  updated_at_ms = now;
}

unfoldable pub set_reviewed : {D : Type 0} → State → Text → Text → ℕ → Release D → Release D
set_reviewed state reviewer notes now row = record row {
  state = state;
  reviewed_at_ms = some now;
  reviewer = some reviewer;
  review_notes = notes;
  updated_at_ms = now;
}

unfoldable pub set_revoked : {D : Type 0} → Text → Text → ℕ → Release D → Release D
set_revoked reviewer notes now row = record row {
  state = revoked;
  revoked_at_ms = some now;
  reviewer = some reviewer;
  review_notes = notes;
  updated_at_ms = now;
}

abbrev pub digest_payload : Text → Json
digest_payload digest = obj (field (codes "descriptorDigest") (text digest) end)

state_text : State → Text
state_text draft = codes "draft"
state_text pending_review = codes "pending_review"
state_text approved = codes "approved"
state_text rejected = codes "rejected"
state_text revoked = codes "revoked"

unfoldable pub revoke_payload : State → Text → Json
unfolding state_text
revoke_payload previous notes = obj (
    field (codes "previousState") (text (state_text previous))
      (field (codes "notes") (text notes) end))
