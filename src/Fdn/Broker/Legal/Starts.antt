-- ===== src/Fdn/Broker/Legal/Starts.antt =====
-- The pieces of `start`.
use fabushi_backend.Prelude.{
  ℕ, ◌+◌, ◌≡◌, refl, ap, Bool, true, false, Option, none, some, inl, inr, arith, Bool-cases,
  Result-cases, text_Eq, ◌==◌, if◌then◌else◌, ltb, Result, ok, err, ◌>>=◌,
}
use fabushi_backend.Text.{Text}
use fabushi_backend.Table
use fabushi_backend.Fdn.Broker.Rows.{
  Error, Status, Identity, Row, State, Broker, CoreValue, redeeming, redeem_unknown,
  redeem_rejected, wrong_cell, redeemed, expired, mint_unknown, completed, enrollment_expired,
  cell_mismatch, network_outcome_unknown,
}
use fabushi_backend.Fdn.Broker.Calls.{
  mints, lists_keys, threw, waits, set_status, set_identity, give_up,
}
use fabushi_backend.Fdn.Broker.Starting.{refuse, take_identity, after_redeem, after_mint}
use fabushi_backend.Fdn.Broker.Life.{
  redemption, minting, binding_once, ◌⟶◌, redeem_lost, redeem_refused, redeem_elsewhere,
  redeem_done, too_late, mint_lost, here, onward, Grows, Evolves-refl, spent-⟶,
}
use fabushi_backend.Fdn.Broker.Legal.{
  IsLegal, IsLegal-write, IsLegal-update, IsLegal-after, get-update_same,
}
use fabushi_backend.Fdn.Broker.Names.{core_projection}

abbrev pub gives_up : Status → Bool
gives_up redeeming = false
gives_up completed = false
gives_up s = true

set_status-Grows :
    (row : Row) (s : Status) → row.status ⟶ s → gives_up s ≡ true → Grows row (set_status s row)
set_status-Grows row s e unfinished = record {
  secret = refl;
  identity = λ id h. h;
  path = onward e here;
  erased = λ clean done. absurd (ground (arith, ap gives_up done));
}

-- The call gives up, on an edge from the status of the row.
pub give_up-IsLegal :
    (b : Broker) (file : State) (grant : Text) (row : Row) (s : Status) (e : Error)
    → Table.get file grant ≡ some row
    → row.status ⟶ s
    → gives_up s ≡ true
    → IsLegal grant file (give_up b file file grant s e)
unfolding give_up
give_up-IsLegal b file grant row s e there edge unfinished =
    IsLegal-write b.host grant file (Table.update file grant (set_status s))
      (Table.update file grant (set_status s), threw e)
      (IsLegal-update grant file (set_status s) row (threw e) there
        (set_status-Grows row s edge unfinished)
        (λ k. omega (arith, spent-⟶ row (set_status s row) k edge)) (λ p h. absurd (ground arith))
        (λ h. absurd (ground (arith, ap gives_up h))))

refuse-IsLegal :
    (b : Broker) (file : State) (grant : Text) (row : Row) (e : Error)
    → Table.get file grant ≡ some row
    → row.status ≡ redeeming
    → IsLegal grant file (refuse b file file grant e)
unfolding refuse
refuse-IsLegal b file grant row network_outcome_unknown there at =
    give_up-IsLegal b file grant row redeem_unknown network_outcome_unknown there
      (rw (at) redeem_lost) refl
refuse-IsLegal b file grant row e there at =
    give_up-IsLegal b file grant row redeem_rejected e there (rw (at) redeem_refused) refl

set_identity-Grows :
    (row : Row) (id : Identity)
    → row.status ≡ redeeming
    → row.identity ≡ none
    → Grows row (set_identity id row)
set_identity-Grows row id at anonymous = record {
  secret = refl;
  identity = λ old h. absurd (ground arith);
  path = onward (rw (at) redeem_done) here;
  erased = λ clean done. absurd (ground arith);
}

take_identity-IsLegal :
    (b : Broker) (file : State) (grant : Text) (row : Row) (id : Identity) (now : ℕ)
    → Table.get file grant ≡ some row
    → row.status ≡ redeeming
    → row.identity ≡ none
    → IsLegal grant file (take_identity b file file grant id now)
unfolding take_identity
take_identity-IsLegal b file grant row id now there at anonymous =
    elim (Bool-cases (id.cell_id == b.cell_id)) [
      | inr elsewhere ↦ rw (elsewhere) (
          give_up-IsLegal b file grant row wrong_cell cell_mismatch there (rw (at) redeem_elsewhere)
            refl)
      | inl ours ↦ rw (ours) (
          IsLegal-write b.host grant file new
            (if ltb id.expires_at (now + 15)
              then give_up b new new grant expired enrollment_expired
              else (new, waits (record { state = new; grant = grant; awaits = mints id })))
            (elim (Bool-cases (ltb id.expires_at (now + 15))) [
              | inl late ↦ rw (late) (
                  IsLegal-after grant file (set_identity id) row
                    (give_up b new new grant expired enrollment_expired) there grows
                    (λ k. spent-⟶ row (set_identity id row) k (rw (at) redeem_done))
                    (give_up-IsLegal b new grant (set_identity id row) expired enrollment_expired
                      (get-update_same file grant (set_identity id) row there) too_late refl))
              | inr in_time ↦ rw (in_time) (
                  IsLegal-update grant file (set_identity id) row
                    (waits (record { state = new; grant = grant; awaits = mints id })) there grows
                    (λ k. elim k [
                      | redemption ↦ ground arith
                      | minting ↦ ground (arith, at)
                      | binding_once ↦ ground (arith, at)
                    ])
                    (λ p h. ground arith) (λ h. absurd (ground arith)))
            ]))
    ]
  where
    new : State
    new = Table.update file grant (set_identity id)

    grows : Grows row (set_identity id row)
    grows = set_identity-Grows row id at anonymous

pub after_redeem-IsLegal :
    (b : Broker) (file : State) (grant : Text) (row : Row)
    (answer : Result Error (Option CoreValue)) (now : ℕ)
    → Table.get file grant ≡ some row
    → row.status ≡ redeeming
    → row.identity ≡ none
    → IsLegal grant file (after_redeem b file file grant answer now)
unfolding after_redeem
after_redeem-IsLegal b file grant row answer now there at anonymous =
    elim (Result-cases (answer >>= core_projection)) [
      | inr (id, good) ↦
          rw (after_redeem, good) (take_identity-IsLegal b file grant row id now there at anonymous)
      | inl (e, bad) ↦ rw (after_redeem, bad) (refuse-IsLegal b file grant row e there at)
    ]

pub after_mint-IsLegal :
    (b : Broker) (file : State) (grant : Text) (row : Row) (id : Identity)
    (answer : Result Error Text)
    → Table.get file grant ≡ some row
    → row.status ≡ redeemed
    → IsLegal grant file (after_mint b file file grant id answer)
unfolding after_mint
after_mint-IsLegal b file grant row id (err e) there at =
    give_up-IsLegal b file grant row mint_unknown e there (rw (at) mint_lost) refl
after_mint-IsLegal b file grant row id (ok raw) there at = record {
  others = λ j other. refl;
  budget = λ k. elim k [
    | redemption ↦ ground arith
    | minting ↦ ground arith
    | binding_once ↦ ground arith
  ];
  evolves = Evolves-refl (Table.get file grant);
  ready = λ p h.
      let same : p.state ≡ file = ground arith in
      let same_grant : p.grant ≡ grant = ground arith in
      let same_await : p.awaits ≡ lists_keys id raw = ground arith in
      (
        same,
        same_grant,
        record {
          row = row;
          there = rw (same, same_grant) there;
          at = rw (same_await, at) refl;
          fresh = λ h. absurd (ground arith);
        },
      );
}
