-- ===== src/Publisher.antt =====
-- ai-backend/src/extension_publisher_store.js: who owns a namespace of the extension marketplace,
-- and how it is handed to another account. A method that throws writes nothing, since its writes
-- stand in one transaction behind its checks. The time and the random UUID are arguments.
pub mod Secrets
pub mod Names
pub mod Calls
pub mod Ownership
pub mod Handover
use mathlib.Core.Option
use fabushi_backend.Prelude.{
  ℕ, suc, Bool, true, false, ◌&&◌, ◌||◌, not, List, [], ◌∷◌, ◌++◌, Option, none, some, length,
  text_Eq, ◌==◌, Result, ok, throw_if, or_throw, is_some, ◌>>=◌, ◌>>◌, if◌then◌else◌,
}
use fabushi_backend.Code.{
  Code, namespace_not_found, namespace_forbidden, namespace_conflict, transfer_same_owner,
  transfer_not_pending, transfer_forbidden, transfer_mismatch,
}
use fabushi_backend.Text.{Text, codes, trim, text_or, is_empty, Locale}
use fabushi_backend.Table
use fabushi_backend.Table.{Table}
use Secrets.{assert_no_secrets}
use fabushi_backend.Json.{Json, text, obj, end, field}
use Names.{namespace_name, claimable_namespace, account_id, display_name}

-- A row of `extension_publisher_namespaces`, less its key.
pub record Namespace : Type 0 where
  pub display_name : Text
  pub owner_account_id : Text
  pub status : Text
  pub pending_transfer_id : Option Text
  pub pending_target_account_id : Option Text
  pub pending_transfer_created_at_ms : Option ℕ
  pub created_at_ms : ℕ
  pub updated_at_ms : ℕ

pub data Action : Type 0 where
  created updated transfer_proposed transfer_accepted transfer_cancelled : Action

-- A row of `extension_publisher_audit`. The log only grows, so the place of an entry is its
-- `sequence`.
pub record AuditEntry : Type 0 where
  pub sequence : ℕ
  pub namespace : Text
  pub action : Action
  pub actor_account_id : Text
  pub target_account_id : Option Text
  pub payload : Json
  pub occurred_at_ms : ℕ

pub record Store : Type 0 where
  pub namespaces : Table Text Namespace
  pub audit : List AuditEntry

abbrev pub empty : Store
empty = record { namespaces = []; audit = [] }

-- What `publicNamespace` shows of a row: neither the owner nor the target of a transfer.
pub record PublicNamespace : Type 0 where
  pub namespace : Text
  pub display_name : Text
  pub status : Text
  pub created_at_ms : ℕ
  pub updated_at_ms : ℕ
  pub transfer_pending : Bool

-- the truth value of a column: NULL and the empty string are falsy
unfoldable pub truthy : Option Text → Bool
truthy none = false
truthy (some s) = not (is_empty s)

unfoldable pub public_namespace : Text → Namespace → PublicNamespace
public_namespace name row = record {
  namespace = name;
  display_name = row.display_name;
  status = row.status;
  created_at_ms = row.created_at_ms;
  updated_at_ms = row.updated_at_ms;
  transfer_pending = truthy row.pending_target_account_id;
}

-- The statement `insert`.
unfoldable pub new_namespace : Text → Text → ℕ → Namespace
new_namespace shown owner now = record {
  display_name = shown;
  owner_account_id = owner;
  status = codes "active";
  pending_transfer_id = none;
  pending_target_account_id = none;
  pending_transfer_created_at_ms = none;
  created_at_ms = now;
  updated_at_ms = now;
}

-- The statements `updateDisplay`, `proposeTransfer`, `acceptTransfer` and `clearTransfer`.
unfoldable pub set_display : Text → ℕ → Namespace → Namespace
set_display name now row = record row { display_name = name; updated_at_ms = now }

unfoldable pub set_transfer : Text → Text → ℕ → Namespace → Namespace
set_transfer transfer_id target now row = record row {
  pending_transfer_id = some transfer_id;
  pending_target_account_id = some target;
  pending_transfer_created_at_ms = some now;
  updated_at_ms = now;
}

unfoldable pub set_owner : Text → ℕ → Namespace → Namespace
set_owner target now row = record row {
  owner_account_id = target;
  pending_transfer_id = none;
  pending_target_account_id = none;
  pending_transfer_created_at_ms = none;
  updated_at_ms = now;
}

unfoldable pub clear_transfer : ℕ → Namespace → Namespace
clear_transfer now row = record row {
  pending_transfer_id = none;
  pending_target_account_id = none;
  pending_transfer_created_at_ms = none;
  updated_at_ms = now;
}

-- `#audit`
unfoldable pub add_audit : Store → Text → Action → Text → Option Text → Json → ℕ → Result Code Store
add_audit st namespace action actor target payload now = do
  assert_no_secrets payload
  ok (record st {
    audit =
        st.audit
        ++ record {
          sequence = suc (length st.audit);
          namespace = namespace;
          action = action;
          actor_account_id = actor;
          target_account_id = target;
          payload = payload;
          occurred_at_ms = now;
        }
          ∷ [];
  })

-- An UPDATE of one row together with its audit entry: the body of a transaction.
unfoldable pub write :
    Store
    → Text
    → (Namespace → Namespace)
    → Action
    → Text
    → Option Text
    → Json
    → ℕ
    → Result Code Store
unfolding add_audit
write st name f action actor target payload now =
    add_audit (record st { namespaces = Table.update st.namespaces name f }) name action actor
      target payload now

module _ (l : Locale) where
  -- `#owned`
  unfoldable pub owned : Store → Option Text → Option Text → Result Code (Text × Namespace)
  owned st namespace actor = do
    name ← claimable_namespace l namespace
    row ← or_throw (Table.get st.namespaces name) namespace_not_found
    account ← account_id actor
    throw_if (not (row.owner_account_id == account)) namespace_forbidden
    ok (name, row)

  unfoldable pub get_public : Store → Option Text → Result Code (Option PublicNamespace)
  get_public st namespace = do
    name ← namespace_name l namespace
    ok (Option.map (public_namespace name) (Table.get st.namespaces name))

  unfoldable pub assert_owned : Store → Option Text → Option Text → Result Code PublicNamespace
  unfolding owned
  assert_owned st namespace actor = do
    (name, row) ← owned st namespace actor
    ok (public_namespace name row)

  unfoldable pub create : Store → Option Text → Option Text → Option Text → ℕ → Result Code Store
  create st namespace requested owner_account now = do
    name ← claimable_namespace l namespace
    owner ← account_id owner_account
    throw_if (is_some (Table.get st.namespaces name)) namespace_conflict
    shown ← display_name requested name
    add_audit
        (record st { namespaces = Table.insert st.namespaces name (new_namespace shown owner now) })
        name created owner none (obj (field (codes "displayName") (text shown) end)) now

  unfoldable pub update : Store → Option Text → Option Text → Option Text → ℕ → Result Code Store
  unfolding owned
  update st namespace actor requested now = do
    (name, row) ← owned st namespace actor
    shown ← display_name requested row.display_name
    if shown == row.display_name
        then ok st
        else write st name (set_display shown now) updated row.owner_account_id none
            (obj (field (codes "displayName") (text shown) end)) now

  unfoldable pub propose_transfer :
      Store → Option Text → Option Text → Option Text → Text → ℕ → Result Code Store
  unfolding owned
  propose_transfer st namespace actor target_account transfer_id now = do
    (name, row) ← owned st namespace actor
    target ← account_id target_account
    throw_if (target == row.owner_account_id) transfer_same_owner
    write st name (set_transfer transfer_id target now) transfer_proposed row.owner_account_id
        (some target) (obj (field (codes "transferId") (text transfer_id) end)) now

  unfoldable pub accept_transfer :
      Store → Option Text → Option Text → Option Text → ℕ → Result Code Store
  accept_transfer st namespace actor_account transfer_id now = do
    name ← claimable_namespace l namespace
    actor ← account_id actor_account
    row ← or_throw (Table.get st.namespaces name) namespace_not_found
    throw_if (not (truthy row.pending_transfer_id) || not (truthy row.pending_target_account_id))
        transfer_not_pending
    throw_if (not (text_or row.pending_target_account_id [] == actor)) transfer_forbidden
    throw_if (not (trim (text_or transfer_id []) == text_or row.pending_transfer_id []))
        transfer_mismatch
    write st name (set_owner actor now) transfer_accepted actor (some actor)
        (obj (
          field (codes "transferId") (text (text_or row.pending_transfer_id []))
            (field (codes "previousOwnerAccountId") (text row.owner_account_id) end)))
        now

  unfoldable pub cancel_transfer : Store → Option Text → Option Text → ℕ → Result Code Store
  unfolding owned
  cancel_transfer st namespace actor now = do
    (name, row) ← owned st namespace actor
    throw_if (not (truthy row.pending_transfer_id)) transfer_not_pending
    write st name (clear_transfer now) transfer_cancelled row.owner_account_id
        row.pending_target_account_id
        (obj (field (codes "transferId") (text (text_or row.pending_transfer_id [])) end)) now
