-- ===== src/Fdn/Broker/Calls.antt =====
-- `start` and `complete` of the EnrollmentBroker, cut where they await a client: a piece runs alone,
-- and other calls may run between two pieces. A piece returns the file as it leaves it, and what the
-- call does next. The state that a call has read is its own: it writes that one, whole.
use fabushi_backend.Prelude.{
  ℕ, Bool, false, ◌∷◌, ◌++◌, Option, none, some, leb, text_Eq, Result, ok, err, or_throw, ◌>>=◌,
  if◌then◌else◌,
}
use fabushi_backend.Text.{Text}
use fabushi_backend.Text.Decimal.{decimal}
use fabushi_backend.Table
use fabushi_backend.Fdn.Broker.Rows.{
  Error, Status, Identity, Row, State, Host, Broker, Reply, redeeming, redeemed, missing_auth_key,
  auth_key_decrypt_failed, state_too_large,
}

-- The await at which a call stands, with the state that it has read and its grant.
pub data Await : Type 0 where
  redeems : Text → Await
  mints : Identity → Await
  lists_keys : Identity → Text → Await
  lists_nodes binds reads_cell : Await

pub record Pending : Type 0 where
  pub state : State
  pub grant : Text
  pub awaits : Await

pub data Next : Type 0 where
  returned : Reply → Next
  threw : Error → Next
  waits : Pending → Next

-- The file that a piece leaves, and the next of its call.
abbrev pub Piece : Type 0
Piece = State × Next

abbrev pub max_state_bytes : ℕ
max_state_bytes = 1048576

-- `JsonStateStore.write`, and what follows it
unfoldable pub write : Host → State → State → Piece → Piece
write h file new next =
    if leb (h.size new) max_state_bytes then next else (file, threw state_too_large)

unfoldable pub new_row : Text → ℕ → Row
new_row digest now = record {
  secret_digest = digest;
  status = redeeming;
  created_at = now;
  identity = none;
  pre_auth_key_id = none;
  auth_key_envelope = none;
  bound = none;
  completed_at = none;
}

-- `state.enrollments[grantId].status = …`
abbrev pub set_status : Status → Row → Row
set_status s row = record row { status = s }

abbrev pub set_identity : Identity → Row → Row
set_identity id row = record row { identity = some id; status = redeemed }

-- `aadFor`, of a row that has an identity and a key
unfoldable pub aad_for : Text → Identity → ℕ → Text
aad_for grant id key_id =
    grant
    ++ 0 ∷ id.user_id
    ++ 0 ∷ id.device_id
    ++ 0 ∷ id.cell_id
    ++ 0 ∷ decimal id.generation
    ++ 0 ∷ decimal key_id

abbrev pub expires_by : Option Identity → ℕ → Bool
expires_by none now = false
expires_by (some id) now = leb id.expires_at now

-- `decryptAuthKey`
unfoldable pub decrypt_auth_key : Broker → Text → Row → Result Error Text
unfolding aad_for
decrypt_auth_key b grant row = do
  envelope ← or_throw row.auth_key_envelope missing_auth_key
  key ← or_throw b.state_key auth_key_decrypt_failed
  id ← or_throw row.identity auth_key_decrypt_failed
  key_id ← or_throw row.pre_auth_key_id auth_key_decrypt_failed
  or_throw (b.host.decrypt key envelope (aad_for grant id key_id)) auth_key_decrypt_failed

abbrev pub of_result : Result Error Reply → Next
of_result (ok r) = returned r
of_result (err e) = threw e

-- The row of the grant is set to a status, and the call throws.
unfoldable pub give_up : Broker → State → State → Text → Status → Error → Piece
unfolding write
give_up b file state grant status e =
    let new = Table.update state grant (set_status status) in write b.host file new (new, threw e)
