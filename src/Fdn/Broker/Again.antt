-- ===== src/Fdn/Broker/Again.antt =====
-- A device that asks again for a key that it has been given, as after an answer that was lost.
use fabushi_backend.Prelude.{
  ℕ, ◌≡◌, refl, ap, ◌∙◌, true, false, List, Option, none, some, inl, inr, arith, Bool-cases,
  Option-cases, Result-cases, text_Eq, leb, Result, ok, ◌>>=◌, text_beq_iff,
}
use fabushi_backend.Text.{Text}
use fabushi_backend.Table
use fabushi_backend.Fdn.Broker.Rows.{
  Error, Status, Identity, Row, State, Host, Broker, KeyRow, Reply, key_reply, mint_unknown,
}
use fabushi_backend.Fdn.Broker.Calls.{
  Next, returned, threw, Piece, write, max_state_bytes, set_status, aad_for, decrypt_auth_key,
  give_up,
}
use fabushi_backend.Fdn.Broker.Starting.{start_existing, start_at, set_key, after_keys}
use fabushi_backend.Fdn.Broker.Legal.{get-update_same}
use fabushi_backend.Fdn.Broker.Keys.{resolve_pre_auth_key_id}

abbrev reply_of : Next → Option Reply
reply_of (returned r) = some r
reply_of next = none

write-reply_of :
    (h : Host) (file new : State) (piece : Piece) (left : State) (r : Reply)
    → write h file new piece ≡ (left, returned r)
    → piece ≡ (left, returned r)
unfolding write
write-reply_of h file new piece left r e = elim (Bool-cases (leb (h.size new) max_state_bytes)) [
  | inl fits_in ↦ ground (arith, e, fits_in)
  | inr too_large ↦ absurd (ground (arith, e, too_large))
]

give_up-reply_of :
    (b : Broker) (file : State) (grant : Text) (s : Status) (e : Error) (left : State) (r : Reply)
    → give_up b file file grant s e ≡ (left, returned r)
    → ⊥
unfolding give_up
give_up-reply_of b file grant s e left r h =
    let inside =
      write-reply_of b.host file (Table.update file grant (set_status s))
        (Table.update file grant (set_status s), threw e) left r h in
    absurd (ground arith)

-- What the last piece of `start` has done when it returns.
given :
    (b : Broker) (file : State) (grant : Text) (id : Identity) (raw : Text)
    (answer : Result Error (List (Option KeyRow))) (iv : Text) (left : State) (r : Reply)
    → after_keys b file file grant id raw answer iv ≡ (left, returned r)
    → (key : Text) × (key_id : ℕ) × (b.state_key ≡ some key)
      × (r ≡ key_reply raw (some id) false)
      × (left
          ≡ Table.update file grant
              (set_key key_id (b.host.encrypt key iv raw (aad_for grant id key_id))))
unfolding after_keys
given b file grant id raw answer iv left r e =
    elim (Result-cases (answer >>= λ rows. resolve_pre_auth_key_id rows raw id.cell_id)) [
      | inl (f, bad) ↦
          absurd (give_up-reply_of b file grant mint_unknown f left r (ground (arith, e, bad)))
      | inr (key_id, good) ↦ elim (Option-cases b.state_key) [
        | inl keyless ↦ absurd (ground (arith, e, good, keyless))
        | inr (key, has_key) ↦
            let new =
              Table.update file grant
                (set_key key_id (b.host.encrypt key iv raw (aad_for grant id key_id))) in
            let inside =
              write-reply_of b.host file new (new, returned (key_reply raw (some id) false)) left r
                (ground (arith, e, good, has_key)) in
            (key, key_id, has_key, ground arith, ground arith)
      ]
    ]

decrypt_auth_key_lem :
    (b : Broker) (grant : Text) (row : Row) (id : Identity) (raw iv key : Text) (key_id : ℕ)
    → b.state_key ≡ some key
    → row.identity ≡ some id
    → row.pre_auth_key_id ≡ some key_id
    → row.auth_key_envelope ≡ some (b.host.encrypt key iv raw (aad_for grant id key_id))
    → decrypt_auth_key b grant row ≡ ok raw
unfolding decrypt_auth_key
decrypt_auth_key_lem b grant row id raw iv key key_id has_key same_id same_key_id same_envelope =
    rw
      (
        decrypt_auth_key,
        same_envelope,
        has_key,
        same_id,
        same_key_id,
        b.host.decrypt_encrypt key iv raw (aad_for grant id key_id),
      )
      refl

-- Where a start has returned a key to a device, a start with the same secret before the identity
-- expires returns the same key and the same identity again, and leaves the file as it is.
pub start_at-after_keys :
    (b : Broker) (file left : State) (grant raw iv : Text) (row : Row) (id : Identity)
    (answer : Result Error (List (Option KeyRow))) (r : Reply) (now : ℕ)
    → Table.get file grant ≡ some row
    → row.identity ≡ some id
    → after_keys b file file grant id raw answer iv ≡ (left, returned r)
    → leb id.expires_at now ≡ false
    → (r ≡ key_reply raw (some id) false)
      × (start_at b left grant row.secret_digest now
          ≡ (left, returned (key_reply raw (some id) true)))
unfolding start_at start_existing
start_at-after_keys b file left grant raw iv row id answer r now there same_id returned_it valid =
    let (key, key_id, has_key, same_reply, written) =
      given b file grant id raw answer iv left r returned_it in
    let envelope = b.host.encrypt key iv raw (aad_for grant id key_id) in
    let row' : Row = set_key key_id envelope row in
    let now_there : Table.get left grant ≡ some row' =
      ap (λ s. Table.get s grant) written
      ∙ get-update_same file grant (set_key key_id envelope) row there in
    let opened = decrypt_auth_key_lem b grant row' id raw iv key key_id has_key same_id refl refl in
    (
      same_reply,
      ground (
        arith,
        now_there,
        opened,
        same_id,
        valid,
        text_beq_iff row.secret_digest row.secret_digest,
      ),
    )
