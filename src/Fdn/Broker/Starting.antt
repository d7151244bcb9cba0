-- ===== src/Fdn/Broker/Starting.antt =====
-- `start` of the EnrollmentBroker, and what follows its awaits.
use fabushi_backend.Fdn.Broker.Calls.{
  Next, Piece, write, new_row, set_identity, aad_for, expires_by, decrypt_auth_key, of_result,
  give_up, redeems, mints, lists_keys, returned, threw, waits,
}
use fabushi_backend.Prelude.{
  ℕ, ◌+◌, true, false, not, List, [], ◌∷◌, Option, none, some, ltb, text_Eq, ◌==◌, Result, ok, err,
  throw_if, or_throw, ◌>>=◌, ◌>>◌, if◌then◌else◌,
}
use fabushi_backend.Text.{Text, codes}
use fabushi_backend.Table
use fabushi_backend.Fdn.Broker.Rows.{
  Error, Status, Identity, Envelope, Row, State, Host, Broker, Request, CoreValue, KeyRow,
  key_reply, completed_reply, redeem_unknown, redeem_rejected, wrong_cell, expired, mint_unknown,
  key_ready, bind_unknown, completed, invalid_request, invalid_state_key, grant_secret_mismatch,
  enrollment_expired, enrollment_state_conflict, cell_mismatch, network_outcome_unknown,
  redeem_outcome_unknown, mint_outcome_unknown, bind_outcome_unknown,
}
use fabushi_backend.Fdn.Broker.Names.{exact_keys, grant_id, secret_digest, core_projection}
use fabushi_backend.Fdn.Broker.Keys.{resolve_pre_auth_key_id}

-- `start` where the grant has a row
unfoldable pub start_existing : Broker → Text → Row → ℕ → Status → Next
unfolding decrypt_auth_key
start_existing b grant row now key_ready =
    if expires_by row.identity now
    then threw enrollment_expired
    else of_result (do raw ← decrypt_auth_key b grant row; ok (key_reply raw row.identity true))
start_existing b grant row now completed = returned (completed_reply row.bound row.identity true)
start_existing b grant row now redeem_unknown = threw redeem_outcome_unknown
start_existing b grant row now mint_unknown = threw mint_outcome_unknown
start_existing b grant row now bind_unknown = threw bind_outcome_unknown
start_existing b grant row now _ = threw enrollment_state_conflict

unfoldable pub start_fields : List Text
start_fields = codes "grantId" ∷ codes "grantSecret" ∷ []

-- The grant and the digest of the secret that a request names; a request that is no object is none.
unfoldable pub start_names : Host → Option Request → Result Error (Text × Text)
unfolding exact_keys start_fields grant_id secret_digest
start_names h request = do
  r ← or_throw request invalid_request
  throw_if (not (exact_keys r.keys start_fields)) invalid_request
  grant ← grant_id r.grant_id
  digest ← secret_digest h r.grant_secret
  ok (grant, digest)

unfoldable pub start_at : Broker → State → Text → Text → ℕ → Piece
unfolding start_existing write new_row
start_at b file grant digest now = elim (Table.get file grant) [
  | some row ↦
      if row.secret_digest == digest
      then (file, start_existing b grant row now row.status)
      else (file, threw grant_secret_mismatch)
  | none ↦
      let new = Table.upsert file grant (new_row digest now) in
      write b.host file new
        (new, waits (record { state = new; grant = grant; awaits = redeems digest }))
]

unfoldable pub start : Broker → State → Option Request → ℕ → Piece
unfolding start_names start_at
start b file request now = elim (start_names b.host request) [
  | err e ↦ (file, threw e)
  | ok (grant, digest) ↦ start_at b file grant digest now
]

-- behind a redemption that failed, or whose answer is no projection
unfoldable pub refuse : Broker → State → State → Text → Error → Piece
unfolding give_up
refuse b file state grant network_outcome_unknown =
    give_up b file state grant redeem_unknown network_outcome_unknown
refuse b file state grant e = give_up b file state grant redeem_rejected e

-- the row gets the identity, and the key is minted where enough time is left
unfoldable pub take_identity : Broker → State → State → Text → Identity → ℕ → Piece
unfolding give_up write
take_identity b file state grant id now =
    if not (id.cell_id == b.cell_id)
    then give_up b file state grant wrong_cell cell_mismatch
    else let new = Table.update state grant (set_identity id) in
      write b.host file new (
        if ltb id.expires_at (now + 15)
        then give_up b new new grant expired enrollment_expired
        else (new, waits (record { state = new; grant = grant; awaits = mints id })))

-- behind `this.core.redeem`, whose value is checked in the same `try`
unfoldable pub after_redeem :
    Broker → State → State → Text → Result Error (Option CoreValue) → ℕ → Piece
unfolding refuse take_identity core_projection
after_redeem b file state grant answer now = elim (answer >>= core_projection) [
  | err e ↦ refuse b file state grant e
  | ok id ↦ take_identity b file state grant id now
]

-- behind `this.headscale.mint`
unfoldable pub after_mint : Broker → State → State → Text → Identity → Result Error Text → Piece
unfolding give_up
after_mint b file state grant id (err e) = give_up b file state grant mint_unknown e
after_mint b file state grant id (ok raw) =
    (file, waits (record { state = state; grant = grant; awaits = lists_keys id raw }))

abbrev pub set_key : ℕ → Envelope → Row → Row
set_key key_id envelope row = record row {
  pre_auth_key_id = some key_id;
  status = key_ready;
  auth_key_envelope = some envelope;
}

-- behind `this.headscale.preAuthKeys`; the iv is random
unfoldable pub after_keys :
    Broker
    → State
    → State
    → Text
    → Identity
    → Text
    → Result Error (List (Option KeyRow))
    → Text
    → Piece
unfolding give_up write resolve_pre_auth_key_id aad_for
after_keys b file state grant id raw answer iv =
    elim (answer >>= λ rows. resolve_pre_auth_key_id rows raw id.cell_id) [
      | err e ↦ give_up b file state grant mint_unknown e
      | ok key_id ↦ elim b.state_key [
        | none ↦ (file, threw invalid_state_key)
        | some key ↦
            let envelope = b.host.encrypt key iv raw (aad_for grant id key_id) in
            let new = Table.update state grant (set_key key_id envelope) in
            write b.host file new (new, returned (key_reply raw (some id) false))
      ]
    ]
