-- ===== src/Publisher/Handover.antt =====
-- The two ends of a transfer: what the owner offers the target can take, until the owner thinks
-- again.
use fabushi_backend.Prelude.{
  ℕ, ◌≡◌, refl, sym, ◌∙◌, ap, false, Option, none, some, arith, text_Eq, text_beq_iff, Result, ok,
  err, inl, inr, Result-cases,
}
use fabushi_backend.Code.{Code, transfer_not_pending}
use fabushi_backend.Text.{Text, Locale, trim, text_or, is_empty}
use fabushi_backend.Table
use fabushi_backend.Table.{Table, get-update}
use fabushi_backend.Publisher.Secrets.{assert_no_secrets}
use fabushi_backend.Publisher.{
  Store, Namespace, truthy, propose_transfer, accept_transfer, cancel_transfer, write, set_owner,
  set_transfer, clear_transfer,
}
use fabushi_backend.Publisher.Ownership.{
  accept_ok, propose_ok, propose_found, cancel_ok, cancel_found,
}
use fabushi_backend.Publisher.Names.{account_id, claimable_namespace}

get-update_self :
    (t : Table Text Namespace) (name : Text) (f : Namespace → Namespace) (row : Namespace)
    → Table.get t name ≡ some row
    → Table.get (Table.update t name f) name ≡ some (f row)
get-update_self t name f row found =
    rw (get-update t name name f, (text_beq_iff name name).1 refl, found)

pub ok-injective : {A : Type 0} {a b : A} → ◌≡◌ {A = Result Code A} (ok a) (ok b) → a ≡ b
ok-injective h = cc

accept_none :
    (l : Locale) (st : Store) (namespace actor transfer_id : Option Text) (name who : Text)
    (row : Namespace) (now : ℕ)
    → claimable_namespace l namespace ≡ ok name
    → account_id actor ≡ ok who
    → Table.get st.namespaces name ≡ some row
    → row.pending_transfer_id ≡ none
    → accept_transfer l st namespace actor transfer_id now ≡ err transfer_not_pending
unfolding accept_transfer truthy
accept_none l st namespace actor transfer_id name who row now named known found pending =
    ground arith

account_id-ne-nil : (value : Option Text) {s : Text} → account_id value ≡ ok s → is_empty s ≡ false
unfolding account_id
account_id-ne-nil value h = ground arith

-- An account whose pending transfer of the right name is there can take the namespace.
module _ (l : Locale) (st : Store) (namespace actor : Option Text) (name who id : Text)
    (row : Namespace) (now : ℕ) (named : claimable_namespace l namespace ≡ ok name)
    (known : account_id actor ≡ ok who) (found : Table.get st.namespaces name ≡ some row)
    (target : row.pending_target_account_id ≡ some who)
    (pending : row.pending_transfer_id ≡ some id) (trimmed : trim id ≡ id)
    (filled : is_empty id ≡ false) where
  accept_works :
      (st' : Store) × (accept_transfer l st namespace actor (some id) now ≡ ok st')
      × (Table.get st'.namespaces name ≡ some (set_owner who now row))
  unfolding accept_transfer write truthy text_or assert_no_secrets
  accept_works = elim (Result-cases (accept_transfer l st namespace actor (some id) now)) [
    | inl (e, p) ↦
        absurd
          (ground (arith, account_id-ne-nil actor known, text_beq_iff who who, text_beq_iff id id))
    | inr (st', p) ↦ (
      st',
      p,
      (ap (λ (t : Table Text Namespace). Table.get t name)
            (accept_ok l st namespace actor name who row named known found (some id) now p).2
          ∙ get-update_self st.namespaces name (set_owner who now) row found),
    )
  ]

module _ (l : Locale) (st : Store) (namespace owner target : Option Text)
    (name to transfer_id : Text) (now later : ℕ) {st' : Store}
    (named : claimable_namespace l namespace ≡ ok name) (known : account_id target ≡ ok to)
    (proposed : propose_transfer l st namespace owner target transfer_id now ≡ ok st')
    (trimmed : trim transfer_id ≡ transfer_id) (filled : is_empty transfer_id ≡ false) where
  proposed_row :
      (row : Namespace) × (Table.get st'.namespaces name
        ≡ some (set_transfer transfer_id to now row))
  proposed_row =
      let ((name', who, row, named', k, found), (t, kt)) =
        propose_found l st namespace owner target transfer_id now proposed in
      let (p, q, e) =
        propose_ok l st namespace owner name' who row named' k found target transfer_id t now kt
          proposed in
      let same : name' ≡ name = ok-injective (sym named' ∙ named) in
      let same_to : t ≡ to = ok-injective (sym kt ∙ known) in
      (
        row,
        (ap (λ (u : Table Text Namespace). Table.get u name) e
            ∙ rw (← same, ← same_to)
                (get-update_self st.namespaces name' (set_transfer transfer_id t now) row found)),
      )

  -- After an offer of a claimable namespace to a well-formed account, by a transfer whose identifier
  -- is not blank and has no space around it, that account can accept it by the identifier, and then
  -- owns the namespace with no transfer pending.
  pub handover :
      (st'' : Store) × (row : Namespace) × (accept_transfer l st' namespace target
          (some transfer_id)
          later
        ≡ ok st'')
      × (Table.get st''.namespaces name ≡ some row)
      × (row.owner_account_id ≡ to)
      × (row.pending_transfer_id ≡ none)
      × (row.pending_target_account_id ≡ none)
  unfolding set_transfer set_owner
  handover =
      let (row, found) = proposed_row in
      let (st'', ok'', found'') =
        accept_works l st' namespace target name to transfer_id
          (set_transfer transfer_id to now row) later named known found refl refl trimmed filled in
      (
        st'',
        set_owner to later (set_transfer transfer_id to now row),
        ok'',
        found'',
        refl,
        refl,
        refl,
      )

-- An offer of a claimable namespace that the owner has taken back cannot be accepted, by whatever
-- well-formed account and identifier: the error is TRANSFER_NOT_PENDING.
pub accept-cancel :
    (l : Locale) (st : Store) (namespace owner actor transfer_id : Option Text) (name who : Text)
    (now later : ℕ) {st' : Store}
    → claimable_namespace l namespace ≡ ok name
    → account_id actor ≡ ok who
    → cancel_transfer l st namespace owner now ≡ ok st'
    → accept_transfer l st' namespace actor transfer_id later ≡ err transfer_not_pending
unfolding clear_transfer
accept-cancel l st namespace owner actor transfer_id name who now later {st'} named known h =
    let (name', who', row, named', k, found) = cancel_found l st namespace owner now h in
    let (p, e) = cancel_ok l st namespace owner name' who' row named' k found now h in
    let same : name' ≡ name = ok-injective (sym named' ∙ named) in
    let there : Table.get st'.namespaces name ≡ some (clear_transfer now row) =
      ap (λ (u : Table Text Namespace). Table.get u name) e
      ∙ rw (← same) (get-update_self st.namespaces name' (clear_transfer now) row found) in
    accept_none l st' namespace actor transfer_id name who (clear_transfer now row) later named
      known there refl
