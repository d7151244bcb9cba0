-- ===== src/Tests/Enrollment.antt =====
-- Enrollments with two grants, and the theorems on the broker at them.
use fabushi_backend.Prelude.{
  ℕ, ◌+◌, ◌≤◌, ◌≡◌, refl, true, false, List, [], ◌∷◌, ◌++◌, Option, none, some, arith, text_Eq,
  ◌==◌, if◌then◌else◌, Result, ok, text_beq_iff, text_beq,
}
use fabushi_backend.Text.{Text}
use fabushi_backend.Table
use fabushi_backend.Fdn.Broker.Rows.{
  key_ready, Error, Status, Identity, Envelope, Row, State, Host, Broker, Request, CoreValue,
  KeyRow, Reply, key_reply, completed,
}
use fabushi_backend.Fdn.Broker.Calls.{returned, new_row, set_identity, aad_for}
use fabushi_backend.Fdn.Broker.Starting.{start_at, set_key, after_keys}
use fabushi_backend.Fdn.Broker.Life.{redemption, spent, Grows}
use fabushi_backend.Text.{codes, trim, text_or, is_empty, has}
use fabushi_backend.Tests.Fixtures.{replicate_unit}
use fabushi_backend.Fdn.Broker.Service.{
  of_redeem, of_mint, of_keys, of_nodes, of_bind, idle, Event, starts, completes, answers, stops,
  run, run_alone,
}
use fabushi_backend.Fdn.Broker.Sound.{sent_of}
use fabushi_backend.Fdn.Broker.Alone.{sent_of-run_alone, run_alone-Grows}
use fabushi_backend.Fdn.Broker.Again.{start_at-after_keys}

toy_decrypt : Text → Envelope → Text → Option Text
toy_decrypt key e aad = if e.iv ++ key ++ aad == e.tag then some e.ciphertext else none

toy_opens :
    (key iv plain aad : Text)
    → toy_decrypt key (record { iv = iv; ciphertext = plain; tag = iv ++ key ++ aad }) aad
      ≡ some plain
unfolding toy_decrypt
toy_opens key iv plain aad = ground (arith, text_beq_iff (iv ++ key ++ aad) (iv ++ key ++ aad))

-- An envelope that anyone can read, with a tag that depends on all it should.
abbrev toy_host : Host
toy_host = record {
  sha256 = λ s. s;
  encrypt = λ key iv plain aad. record { iv = iv; ciphertext = plain; tag = iv ++ key ++ aad };
  decrypt = toy_decrypt;
  decrypt_encrypt = toy_opens;
  size = λ state. 1000;
}

abbrev cell : Text
cell = codes "cell-" ++ replicate_unit 16 b'a'

abbrev broker : Broker
broker = record { host = toy_host; is_ip = λ s. 4; state_key = some (codes "key"); cell_id = cell }

abbrev grant_of : ℕ → Text
grant_of c = codes "network-enroll-" ++ replicate_unit 32 c

abbrev request_of : ℕ → Option Request
request_of c = some (record {
  keys = codes "grantSecret" ∷ codes "grantId" ∷ [];
  grant_id = some (grant_of c);
  grant_secret = some (replicate_unit 80 c);
})

abbrev value_of : ℕ → CoreValue
value_of c = record {
  keys =
      codes "userId"
      ∷ codes "deviceId"
      ∷ codes "cellId"
      ∷ codes "generation"
      ∷ codes "expiresAt"
      ∷ [];
  user_id = some (codes "alice");
  device_id = some (c ∷ []);
  cell_id = some cell;
  generation = some 1;
  expires_at = some 1000;
}

abbrev one_start : List (ℕ × Event)
one_start =
    (10, starts (request_of b'a'))
    ∷ (11, answers 0 (of_redeem (ok (some (value_of b'a')))))
    ∷ (12, stops)
    ∷ (13, starts (request_of b'a'))
    ∷ []

started_once : sent_of redemption (grant_of b'a') (run_alone broker (idle []) one_start).sent ≡ 1
unfolding run_alone text_beq has trim text_or is_empty Table.get Table.update Table.upsert
started_once = refl

-- The service overlaps calls: the second grant is started while the first is being redeemed, and the
-- first call then writes the state that it had read, in which the second grant is missing.
abbrev overlapping : List (ℕ × Event)
overlapping =
    (10, starts (request_of b'a'))
    ∷ (11, starts (request_of b'b'))
    ∷ (12, answers 1 (of_redeem (ok (some (value_of b'a')))))
    ∷ (13, starts (request_of b'b'))
    ∷ []

redeemed_twice : sent_of redemption (grant_of b'b') (run broker (idle []) overlapping).sent ≡ 2
unfolding run text_beq has trim text_or is_empty Table.get Table.update Table.upsert
redeemed_twice = refl

abbrev identity : Identity
identity = record {
  user_id = codes "alice";
  device_id = b'a' ∷ [];
  cell_id = cell;
  generation = 1;
  expires_at = 1000;
}

abbrev redeemed_row : Row
redeemed_row = set_identity identity (new_row (codes "digest") 10)

abbrev redeemed_file : State
redeemed_file = (grant_of b'a', redeemed_row) ∷ []

abbrev raw_key : Text
raw_key = codes "hskey-auth-" ++ replicate_unit 12 b'k' ++ codes "-" ++ replicate_unit 64 b's'

abbrev key_rows : Result Error (List (Option KeyRow))
key_rows = ok (
    some (record {
      key = some (codes "hskey-auth-" ++ replicate_unit 12 b'k' ++ codes "-***");
      owner = some cell;
      id = some 7;
    })
    ∷ none
    ∷ [])

abbrev envelope : Envelope
envelope = toy_host.encrypt (codes "key") (codes "iv") raw_key (aad_for (grant_of b'a') identity 7)

abbrev keyed_file : State
keyed_file = (grant_of b'a', set_key 7 envelope redeemed_row) ∷ []

key_given :
    after_keys broker redeemed_file redeemed_file
      (grant_of b'a')
      identity
      raw_key
      key_rows
      (codes "iv")
    ≡ (keyed_file, returned (key_reply raw_key (some identity) false))
unfolding after_keys text_beq has trim text_or is_empty Table.get Table.update
key_given = refl

start_at-after_keys_example :
    (◌≡◌ {A = Reply}
      (key_reply raw_key (some identity) false)
      (key_reply raw_key (some identity) false))
    × (start_at broker keyed_file (grant_of b'a') (codes "digest") 20
        ≡ (keyed_file, returned (key_reply raw_key (some identity) true)))
unfolding text_beq new_row Table.get
start_at-after_keys_example =
    start_at-after_keys broker redeemed_file keyed_file (grant_of b'a') raw_key (codes "iv")
      redeemed_row identity key_rows (key_reply raw_key (some identity) false) 20 refl refl
      key_given refl

sent_of-run_alone_example :
    sent_of redemption (grant_of b'a') (run_alone broker (idle []) one_start).sent
      + spent redemption (Table.get {K = Text} {V = Row} [] (grant_of b'a'))
    ≤ 1
sent_of-run_alone_example = sent_of-run_alone broker [] one_start redemption (grant_of b'a')

-- The device has joined the network, and is bound.
abbrev joined : List (ℕ × Event)
joined =
    (
      20,
      completes (
          some (record {
            keys = codes "grantId" ∷ [];
            grant_id = some (grant_of b'a');
            grant_secret = none;
          })),
    )
    ∷ (
      21,
      answers 0 (
          of_nodes (
            ok (
              some (record {
                pre_auth_key_id = some 7;
                owner = some cell;
                machine_key = some (codes "m");
                node_key = some (codes "n");
                ip_addresses = some (some (codes "100.64.0.10") ∷ []);
                expiry = none;
              })
              ∷ []))),
    )
    ∷ (
      22,
      answers 0 (
          of_bind (
            ok (
              some (record {
                ok = true;
                user_id = some (codes "alice");
                device_id = some (b'a' ∷ []);
                generation = some 1;
                expires_at = some 86361;
              })))),
    )
    ∷ []

abbrev status_at : State → Option Status
status_at file = elim (Table.get file (grant_of b'a')) [ none ↦ none | some row ↦ some row.status ]

joined_completed : status_at (run_alone broker (idle keyed_file) joined).file ≡ some completed
unfolding run_alone text_beq has trim text_or is_empty Table.get Table.update
joined_completed = refl

-- A grant that is redeemed, and then gets its key.
abbrev fresh_start : List (ℕ × Event)
fresh_start =
    (10, starts (request_of b'a')) ∷ (11, answers 0 (of_redeem (ok (some (value_of b'a'))))) ∷ []

abbrev fresh_key : List (ℕ × Event)
fresh_key =
    (12, answers 0 (of_mint (ok raw_key))) ∷ (13, answers 0 (of_keys key_rows (codes "iv"))) ∷ []

fresh_row :
    (row : Row) × (Table.get (run_alone broker (idle []) fresh_start).file (grant_of b'a')
      ≡ some row)
unfolding run_alone text_beq has trim text_or is_empty Table.get Table.update Table.upsert
fresh_row = (_, refl)

fresh_key_ready :
    status_at (run_alone broker (run_alone broker (idle []) fresh_start) fresh_key).file
    ≡ some key_ready
unfolding run_alone text_beq has trim text_or is_empty Table.get Table.update Table.upsert
fresh_key_ready = refl

run_alone-Grows_example :
    (row' : Row) × (Table.get
        (run_alone broker (run_alone broker (idle []) fresh_start) fresh_key).file
        (grant_of b'a')
      ≡ some row')
    × Grows fresh_row.0 row'
run_alone-Grows_example =
    run_alone-Grows broker [] fresh_start fresh_key (grant_of b'a') fresh_row.0 fresh_row.1
