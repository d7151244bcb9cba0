-- ===== src/Fdn/Broker/Legal/KeyPieces.antt =====
-- The pieces of `start` that give a key, and its first piece.
use fabushi_backend.Fdn.Broker.Legal.Starts.{give_up-IsLegal}
use fabushi_backend.Prelude.{
  ℕ, ◌≡◌, refl, true, false, List, Option, some, inl, inr, arith, Bool-cases, Option-cases,
  Result-cases, text_Eq, ◌==◌, Result, ◌>>=◌,
}
use fabushi_backend.Text.{Text}
use fabushi_backend.Table
use fabushi_backend.Fdn.Broker.Rows.{
  Error, Status, Identity, Envelope, Row, State, Broker, KeyRow, key_reply, completed_reply,
  redeem_unknown, redeemed, mint_unknown, key_ready, bind_unknown, completed, invalid_state_key,
  grant_secret_mismatch, enrollment_expired, enrollment_state_conflict, redeem_outcome_unknown,
  mint_outcome_unknown, bind_outcome_unknown,
}
use fabushi_backend.Fdn.Broker.Calls.{
  redeems, returned, waits, new_row, aad_for, expires_by, decrypt_auth_key,
}
use fabushi_backend.Fdn.Broker.Starting.{start_existing, start_at, set_key, after_keys}
use fabushi_backend.Fdn.Broker.Life.{
  redemption, minting, binding_once, mint_lost, mint_done, here, onward, Grows, spent-⟶,
}
use fabushi_backend.Fdn.Broker.Legal.{
  IsLegal, IsLegal-threw, IsLegal-returned, IsLegal-write, IsLegal-update, IsLegal-create,
}
use fabushi_backend.Fdn.Broker.Keys.{resolve_pre_auth_key_id}

set_key-Grows :
    (row : Row) (key_id : ℕ) (envelope : Envelope)
    → row.status ≡ redeemed
    → Grows row (set_key key_id envelope row)
set_key-Grows row key_id envelope at = record {
  secret = refl;
  identity = λ id h. h;
  path = onward (rw (at) mint_done) here;
  erased = λ clean done. absurd (ground arith);
}

pub after_keys-IsLegal :
    (b : Broker) (file : State) (grant : Text) (row : Row) (id : Identity) (raw : Text)
    (answer : Result Error (List (Option KeyRow))) (iv : Text)
    → Table.get file grant ≡ some row
    → row.status ≡ redeemed
    → IsLegal grant file (after_keys b file file grant id raw answer iv)
unfolding after_keys
after_keys-IsLegal b file grant row id raw answer iv there at =
    elim (Result-cases (answer >>= λ rows. resolve_pre_auth_key_id rows raw id.cell_id)) [
      | inl (e, bad) ↦
          rw (after_keys, bad)
            (give_up-IsLegal b file grant row mint_unknown e there (rw (at) mint_lost) refl)
      | inr (key_id, good) ↦ elim (Option-cases b.state_key) [
        | inl keyless ↦ rw (after_keys, good, keyless) (IsLegal-threw grant file invalid_state_key)
        | inr (key, has_key) ↦
            let envelope = b.host.encrypt key iv raw (aad_for grant id key_id) in
            let next = returned (key_reply raw (some id) false) in
            rw (after_keys, good, has_key)
              (IsLegal-write b.host grant file (Table.update file grant (set_key key_id envelope))
                (Table.update file grant (set_key key_id envelope), next)
                (IsLegal-update grant file (set_key key_id envelope) row next there
                  (set_key-Grows row key_id envelope at)
                  (λ k.
                    omega (arith, spent-⟶ row (set_key key_id envelope row) k (rw (at) mint_done)))
                  (λ p h. absurd (ground arith)) (λ h. absurd (ground arith))))
      ]
    ]

start_existing-ends :
    (b : Broker) (grant : Text) (row : Row) (now : ℕ) (s : Status) (file : State)
    → IsLegal grant file (file, start_existing b grant row now s)
unfolding start_existing
start_existing-ends b grant row now key_ready file =
    elim (Bool-cases (expires_by row.identity now)) [
      | inl late ↦ rw (late) (IsLegal-threw grant file enrollment_expired)
      | inr in_time ↦ rw (in_time) (elim (Result-cases (decrypt_auth_key b grant row)) [
        | inr (raw, good) ↦
            rw (good) (IsLegal-returned grant file (key_reply raw row.identity true))
        | inl (e, bad) ↦ rw (bad) (IsLegal-threw grant file e)
      ])
    ]
start_existing-ends b grant row now completed file =
    IsLegal-returned grant file (completed_reply row.bound row.identity true)
start_existing-ends b grant row now redeem_unknown file =
    IsLegal-threw grant file redeem_outcome_unknown
start_existing-ends b grant row now mint_unknown file =
    IsLegal-threw grant file mint_outcome_unknown
start_existing-ends b grant row now bind_unknown file =
    IsLegal-threw grant file bind_outcome_unknown
start_existing-ends b grant row now _ file = IsLegal-threw grant file enrollment_state_conflict

pub start_at-IsLegal :
    (b : Broker) (file : State) (grant digest : Text) (now : ℕ)
    → IsLegal grant file (start_at b file grant digest now)
unfolding start_at new_row
start_at-IsLegal b file grant digest now = elim (Option-cases (Table.get file grant)) [
  | inr (row, there) ↦
      rw (start_at, there)
        (elim (Bool-cases (row.secret_digest == digest)) [
          | inl same ↦ rw (same) (start_existing-ends b grant row now row.status file)
          | inr other ↦ rw (other) (IsLegal-threw grant file grant_secret_mismatch)
        ])
  | inl missing ↦
      let new = Table.upsert file grant (new_row digest now) in
      let next = waits (record { state = new; grant = grant; awaits = redeems digest }) in
      rw (start_at, missing)
        (IsLegal-write b.host grant file new (new, next)
          (IsLegal-create grant file (new_row digest now) next missing (λ h. refl)
            (λ k. elim k [
              | redemption ↦ ground arith
              | minting ↦ ground arith
              | binding_once ↦ ground arith
            ])
            (λ p h. ground arith) (λ h. refl)))
]
