-- ===== src/Fdn/Broker/Rows.antt =====
-- The enrollment state, what the broker takes of its platform, and what its clients answer.
use fabushi_backend.Prelude.{ℕ, ◌≡◌, Bool, List, Option, some, text_Eq}
use fabushi_backend.Text.{Text}
use fabushi_backend.Table.{Table}

-- The `code` of an EnrollmentError. `client` is any other error of the command-line clients.
pub data Error : Type 0 where
  invalid_request invalid_grant_id invalid_grant_secret invalid_cell_id invalid_state_key : Error
  grant_secret_mismatch enrollment_expired missing_auth_key auth_key_decrypt_failed : Error
  enrollment_state_conflict enrollment_not_found cell_mismatch state_too_large : Error
  core_projection_invalid core_bind_mismatch core_rejected network_outcome_unknown : Error
  headscale_key_invalid preauth_key_correlation_failed node_correlation_failed : Error
  node_address_invalid client : Error
  redeem_outcome_unknown mint_outcome_unknown bind_outcome_unknown : Error

pub data Status : Type 0 where
  redeeming redeem_unknown redeem_rejected wrong_cell redeemed expired mint_unknown : Status
  key_ready binding bind_unknown bind_rejected completed : Status

-- A projection of Core that has been checked.
pub record Identity : Type 0 where
  pub user_id : Text
  pub device_id : Text
  pub cell_id : Text
  pub generation : ℕ
  pub expires_at : ℕ

pub record Envelope : Type 0 where
  pub iv : Text
  pub ciphertext : Text
  pub tag : Text

-- What `complete` adds to a row before it binds.
pub record Bound : Type 0 where
  pub node_id : Text
  pub proof_sha256 : Text
  pub binding_expires_at : ℕ
  pub machine_key_sha256 : Text
  pub node_key_sha256 : Text

-- An enrollment, less its grant identifier; a field that is not there yet is none.
pub record Row : Type 0 where
  pub secret_digest : Text
  pub status : Status
  pub created_at : ℕ
  pub identity : Option Identity
  pub pre_auth_key_id : Option ℕ
  pub auth_key_envelope : Option Envelope
  pub bound : Option Bound
  pub completed_at : Option ℕ

-- `state.enrollments`, which is all of the file but its version.
abbrev pub State : Type 0
State = Table Text Row

-- What the broker takes of its platform.
pub record Host : Type 0 where
  -- SHA-256 in hexadecimal of the UTF-8 bytes of a text
  pub sha256 : Text → Text
  -- AES-256-GCM under the state key: the random iv, the plain text, the additional data
  pub encrypt : Text → Text → Text → Text → Envelope
  pub decrypt : Text → Envelope → Text → Option Text
  pub decrypt_encrypt :
      (key iv plain aad : Text) → decrypt key (encrypt key iv plain aad) aad ≡ some plain
  -- `Buffer.byteLength` of the state as it is written
  pub size : State → ℕ

-- `state_key` is there if the environment has a key of 32 bytes.
pub record Broker : Type 0 where
  pub host : Host
  pub is_ip : Text → ℕ
  pub state_key : Option Text
  pub cell_id : Text

-- A request with the keys of its object.
pub record Request : Type 0 where
  pub keys : List Text
  pub grant_id : Option Text
  pub grant_secret : Option Text

-- What Core answers to the redemption of a grant; a number that is no natural number is none.
pub record CoreValue : Type 0 where
  pub keys : List Text
  pub user_id : Option Text
  pub device_id : Option Text
  pub cell_id : Option Text
  pub generation : Option ℕ
  pub expires_at : Option ℕ

-- A row of `headscale preauthkeys list`.
pub record KeyRow : Type 0 where
  pub key : Option Text
  pub owner : Option Text
  pub id : Option ℕ

-- A row of `headscale nodes list`. The expiry is in milliseconds.
pub record NodeRow : Type 0 where
  pub pre_auth_key_id : Option ℕ
  pub owner : Option Text
  pub machine_key : Option Text
  pub node_key : Option Text
  pub ip_addresses : Option (List (Option Text))
  pub expiry : Option ℕ

-- What Core answers to a bind.
pub record BindResponse : Type 0 where
  pub ok : Bool
  pub user_id : Option Text
  pub device_id : Option Text
  pub generation : Option ℕ
  pub expires_at : Option ℕ

-- A binding of the snapshot of a cell, and the snapshot.
pub record CellBinding : Type 0 where
  pub user_id : Option Text
  pub device_id : Option Text
  pub cell_id : Option Text
  pub generation : Option ℕ
  pub node_id : Option Text

pub record CellSnapshot : Type 0 where
  pub cell_id : Option Text
  pub bindings : Option (List CellBinding)

-- What a call returns to its caller.
pub data Reply : Type 0 where
  key_reply : Text → Option Identity → Bool → Reply
  completed_reply : Option Bound → Option Identity → Bool → Reply
