-- ===== src/Publisher/Ownership.antt =====
-- The store refines the automaton of `Publisher.Calls`, namespace by namespace.

use fabushi_backend.Prelude.{
  ℕ, ◌≡◌, refl, ap, ◌∙◌, ◌≢◌, Option, none, some, arith, text_Eq, text_beq_iff, ◌==◌, ok, ◌⊎◌, inl,
  inr, Bool-cases, Result-cases, [],
}
use fabushi_backend.Text.{Text, Locale, trim, text_or}
use fabushi_backend.Table
use fabushi_backend.Table.{Table, get-update, get-insert}
use fabushi_backend.Publisher.{
  Store, Namespace, truthy, owned, create, update, propose_transfer, accept_transfer,
  cancel_transfer, write, add_audit, new_namespace, set_owner, set_display, set_transfer,
  clear_transfer,
}
use fabushi_backend.Publisher.Names.{account_id, display_name, claimable_namespace}
use fabushi_backend.Publisher.Calls.{
  Call, Request, creates, updates, proposes, accepts, cancels, dispatch, step, Move, keep, claim,
  offer, accept, cancel, held, pending_view, view, owner_of,
}

-- A change of one row that the automaton allows is one that it allows at every namespace.
edit-Move :
    (who : Text) (t : Table Text Namespace) (name j : Text) (f : Namespace → Namespace)
    (row : Namespace)
    → Table.get t name ≡ some row
    → Move who (view (some row)) (view (some (f row)))
    → Move who (view (Table.get t j)) (view (Table.get (Table.update t name f) j))
edit-Move who t name j f row found m = elim (Bool-cases (name == j)) [
  | inl same ↦ rw (get-update t name j f, same, ← (text_beq_iff name j).0 same, found) m
  | inr other ↦ rw (get-update t name j f, other) (keep refl)
]

module _ (l : Locale) (st : Store) (namespace actor : Option Text) where
  owned_ok :
      (name : Text) (row : Namespace)
      → owned l st namespace actor ≡ ok (name, row)
      → (claimable_namespace l namespace ≡ ok name)
        × (Table.get st.namespaces name ≡ some row)
        × (account_id actor ≡ ok row.owner_account_id)
  unfolding owned
  owned_ok name row h = grind (arith, text_beq_iff)

  module _ (name who : Text) (row : Namespace) {st' : Store}
      (named : claimable_namespace l namespace ≡ ok name) (known : account_id actor ≡ ok who)
      (found : Table.get st.namespaces name ≡ some row) where
    pub accept_ok :
        (transfer_id : Option Text) (now : ℕ)
        → accept_transfer l st namespace actor transfer_id now ≡ ok st'
        → (row.pending_transfer_id ≡ some (trim (text_or transfer_id [])))
          × (row.pending_target_account_id ≡ some who)
          × (st'.namespaces ≡ Table.update st.namespaces name (set_owner who now))
    unfolding accept_transfer write truthy text_or
    accept_ok transfer_id now h = grind (arith, text_beq_iff)

    pub cancel_ok :
        (now : ℕ)
        → cancel_transfer l st namespace actor now ≡ ok st'
        → (row.owner_account_id ≡ who)
          × (st'.namespaces ≡ Table.update st.namespaces name (clear_transfer now))
    unfolding cancel_transfer write truthy text_or
    cancel_ok now h = grind (arith, text_beq_iff)

    pub propose_ok :
        (target_account : Option Text) (transfer_id target : Text) (now : ℕ)
        → account_id target_account ≡ ok target
        → propose_transfer l st namespace actor target_account transfer_id now ≡ ok st'
        → (row.owner_account_id ≡ who)
          × (target ≢ who)
          × (st'.namespaces ≡ Table.update st.namespaces name (set_transfer transfer_id target now))
    unfolding propose_transfer write
    propose_ok target_account transfer_id target now k h = grind (arith, text_beq_iff)

  -- What every call but `create` needs: a claimed namespace and a well-formed account.
  abbrev pub Found : Type 0
  Found =
      (name : Text) × (who : Text) × (row : Namespace) × (claimable_namespace l namespace ≡ ok name)
      × (account_id actor ≡ ok who)
      × (Table.get st.namespaces name ≡ some row)

  accept_found :
      (transfer_id : Option Text) (now : ℕ) {st' : Store}
      → accept_transfer l st namespace actor transfer_id now ≡ ok st'
      → Found
  unfolding accept_transfer
  accept_found transfer_id now h = ground arith

  pub cancel_found :
      (now : ℕ) {st' : Store} → cancel_transfer l st namespace actor now ≡ ok st' → Found
  unfolding cancel_transfer
  cancel_found now h = ground arith

  pub propose_found :
      (t : Option Text) (id : Text) (now : ℕ) {st' : Store}
      → propose_transfer l st namespace actor t id now ≡ ok st'
      → Found × ((target : Text) × (account_id t ≡ ok target))
  unfolding propose_transfer
  propose_found t id now h = ground arith

  update_found :
      (shown : Option Text) (now : ℕ) {st' : Store}
      → update l st namespace actor shown now ≡ ok st'
      → Found
  unfolding update
  update_found shown now h = ground arith

  create_ok :
      (shown : Option Text) (now : ℕ) {st' : Store}
      → create l st namespace shown actor now ≡ ok st'
      → (name : Text) × (who : Text) × (s : Text) × (claimable_namespace l namespace ≡ ok name)
        × (account_id actor ≡ ok who)
        × (display_name shown name ≡ ok s)
        × (Table.get st.namespaces name ≡ none)
        × (st'.namespaces ≡ Table.insert st.namespaces name (new_namespace s who now))
  unfolding create add_audit
  create_ok shown now h = ground arith

  module _ (name who : Text) (row : Namespace) {st' : Store}
      (named : claimable_namespace l namespace ≡ ok name) (known : account_id actor ≡ ok who)
      (found : Table.get st.namespaces name ≡ some row) where
    -- The namespace keeps its view: the statement sets the display name only, or nothing.
    update_ok :
        (shown : Option Text) (now : ℕ)
        → update l st namespace actor shown now ≡ ok st'
        → (row.owner_account_id ≡ who)
          × ((st'.namespaces ≡ st.namespaces)
              ⊎ ((s : Text) × (st'.namespaces
                    ≡ Table.update st.namespaces name (set_display s now))))
    unfolding update write
    update_ok shown now h = grind (arith, text_beq_iff)

-- What a call with the account `who` does to each namespace. A call with no well-formed account
-- does nothing.
abbrev pub Moves : Store → Store → Option Text → Type 0
Moves st st' actor =
    (j : Text)
    → (who : Text) → account_id actor ≡ ok who
    → Move who (view (Table.get st.namespaces j)) (view (Table.get st'.namespaces j))

clear-Move :
    (who owner : Text) (transfer_id target : Option Text)
    → owner ≡ who
    → Move who (pending_view owner transfer_id target) (held owner)
clear-Move who owner (some i) (some t) p = cancel t i (rw p) (rw p)
clear-Move who owner (some i) none p = keep refl
clear-Move who owner none t p = keep refl

owner_of-pending_view :
    (owner : Text) (transfer_id target : Option Text)
    → owner_of (pending_view owner transfer_id target) ≡ some owner
owner_of-pending_view owner (some i) (some t) = refl
owner_of-pending_view owner (some i) none = refl
owner_of-pending_view owner none t = refl

module _ (l : Locale) (st : Store) (namespace actor : Option Text) {st' : Store} where
  create-Moves :
      (shown : Option Text) (now : ℕ)
      → create l st namespace shown actor now ≡ ok st'
      → Moves st st' actor
  unfolding new_namespace
  create-Moves shown now h j w known =
      let (name, who, s, _, k, _, absent, e) = create_ok l st namespace actor shown now h in
      elim (Bool-cases (name == j)) [
        | inl same ↦
            rw (e, get-insert st.namespaces name j (new_namespace s who now), same)
              (claim (ground (arith, text_beq_iff name j)) (ground arith))
        | inr other ↦
            rw (e, get-insert st.namespaces name j (new_namespace s who now), other) (keep refl)
      ]

  accept-Moves :
      (transfer_id : Option Text) (now : ℕ)
      → accept_transfer l st namespace actor transfer_id now ≡ ok st'
      → Moves st st' actor
  unfolding set_owner
  accept-Moves transfer_id now h j w known =
      let (name, who, row, named, k, found) = accept_found l st namespace actor transfer_id now h in
      let (p, q, e) =
        accept_ok l st namespace actor name w row named known found transfer_id now h in
      rw e (
        edit-Move w st.namespaces name j _ row found (
          accept row.owner_account_id (trim (text_or transfer_id [])) (ground arith)
            (ground arith)))

  cancel-Moves : (now : ℕ) → cancel_transfer l st namespace actor now ≡ ok st' → Moves st st' actor
  unfolding clear_transfer
  cancel-Moves now h j w known =
      let (name, who, row, named, k, found) = cancel_found l st namespace actor now h in
      let (p, e) = cancel_ok l st namespace actor name w row named known found now h in
      rw e (
        edit-Move w st.namespaces name j _ row found (
          clear-Move w row.owner_account_id row.pending_transfer_id row.pending_target_account_id
            p))

  propose-Moves :
      (target : Option Text) (transfer_id : Text) (now : ℕ)
      → propose_transfer l st namespace actor target transfer_id now ≡ ok st'
      → Moves st st' actor
  unfolding set_transfer
  propose-Moves target transfer_id now h j w known =
      let ((name, who, row, named, k, found), (t, kt)) =
        propose_found l st namespace actor target transfer_id now h in
      let (p, q, e) =
        propose_ok l st namespace actor name w row named known found target transfer_id t now kt
          h in
      rw e (
        edit-Move w st.namespaces name j _ row found (
          offer t transfer_id
            (owner_of-pending_view _ row.pending_transfer_id row.pending_target_account_id
              ∙ ap some p)
            q (rw p)))

  update-Moves :
      (shown : Option Text) (now : ℕ)
      → update l st namespace actor shown now ≡ ok st'
      → Moves st st' actor
  unfolding set_display
  update-Moves shown now h j w known =
      let (name, who, row, named, k, found) = update_found l st namespace actor shown now h in
      let (p, e) = update_ok l st namespace actor name w row named known found shown now h in
      elim e [
        | inl same ↦ rw same (keep refl)
        | inr (s, set) ↦ rw set (edit-Move w st.namespaces name j _ row found (keep refl))
      ]

dispatch-Moves :
    (l : Locale) (st : Store) (ns account : Option Text) (c : Call) {st' : Store}
    → dispatch l st ns account c ≡ ok st'
    → Moves st st' account
unfolding dispatch
dispatch-Moves l st ns account (creates shown now) h = create-Moves l st ns account shown now h
dispatch-Moves l st ns account (updates shown now) h = update-Moves l st ns account shown now h
dispatch-Moves l st ns account (proposes t i now) h = propose-Moves l st ns account t i now h
dispatch-Moves l st ns account (accepts i now) h = accept-Moves l st ns account i now h
dispatch-Moves l st ns account (cancels now) h = cancel-Moves l st ns account now h

-- When a well-formed account calls, with whatever arguments, each namespace makes a move that the
-- automaton allows to that account: it stays as it is, is claimed while free, is offered by its owner to
-- another account, is accepted by the account that it is offered to, or is kept by its owner.
pub step-Move :
    (l : Locale) (st : Store) (r : Request) (who name : Text)
    → account_id r.account ≡ ok who
    → Move who
        (view (Table.get st.namespaces name))
        (view (Table.get (step l st r).namespaces name))
unfolding step
step-Move l st r who name known = elim (Result-cases (dispatch l st r.namespace r.account r.call)) [
  | inl (e, p) ↦ rw p (keep refl)
  | inr (st', p) ↦ rw p (dispatch-Moves l st r.namespace r.account r.call p name who known)
]
