-- ===== src/Fdn/Broker/Legal/Completes.antt =====
-- The pieces of `complete`.
use fabushi_backend.Prelude.{
  ℕ, ◌≡◌, refl, Bool, true, false, List, Option, some, inl, inr, arith, Bool-cases, Option-cases,
  Result-cases, text_Eq, Result, ok, err, ◌>>=◌,
}
use fabushi_backend.Text.{Text}
use fabushi_backend.Table
use fabushi_backend.Fdn.Broker.Rows.{
  Error, Status, Bound, Row, State, Broker, NodeRow, BindResponse, CellSnapshot, completed_reply,
  redeeming, key_ready, binding, bind_unknown, bind_rejected, completed, enrollment_state_conflict,
  enrollment_not_found, core_bind_mismatch, network_outcome_unknown, bind_outcome_unknown,
}
use fabushi_backend.Fdn.Broker.Calls.{Await, lists_nodes, binds, reads_cell, returned, waits}
use fabushi_backend.Fdn.Broker.Completing.{
  complete_existing, complete_at, set_completed, finish, both_of, after_cell, set_bound,
  resolve_row, after_nodes, after_bind,
}
use fabushi_backend.Fdn.Broker.Life.{
  Once, redemption, minting, binding_once, is_once, fits, ◌⟶◌, bind_begun, bind_lost, bind_refused,
  bind_done, bind_found, here, onward, Grows, Evolves-refl, spent-⟶,
}
use fabushi_backend.Fdn.Broker.Legal.{
  IsLegal, IsLegal-threw, IsLegal-returned, IsLegal-write, IsLegal-update,
}
use fabushi_backend.Fdn.Broker.Legal.Starts.{give_up-IsLegal}
use fabushi_backend.Fdn.Broker.Nodes.{snapshot_has, bind_accepted}

-- A call that waits at an await that fits the row, and leaves the file.
pub IsLegal-waits :
    (grant : Text) (file : State) (row : Row) (await : Await)
    → Table.get file grant ≡ some row
    → fits await row.status ≡ true
    → (row.status ≡ redeeming → ⊥)
    → ((k : Once) → is_once k await ≡ 0)
    → IsLegal grant file (file, waits (record { state = file; grant = grant; awaits = await }))
IsLegal-waits grant file row await there at begun none_sent = record {
  others = λ j other. refl;
  budget = λ k. omega (arith, none_sent k);
  evolves = Evolves-refl (Table.get file grant);
  ready = λ p h.
      let same : p.state ≡ file = ground arith in
      let same_grant : p.grant ≡ grant = ground arith in
      let same_await : p.awaits ≡ await = ground arith in
      (
        same,
        same_grant,
        record {
          row = row;
          there = rw (same, same_grant) there;
          at = rw (same_await) at;
          fresh = λ h. absurd (begun h);
        },
      );
}

set_completed-Grows :
    (row : Row) (now : ℕ) → row.status ⟶ completed → Grows row (set_completed now row)
set_completed-Grows row now edge = record {
  secret = refl;
  identity = λ id h. h;
  path = onward edge here;
  erased = λ clean done. refl;
}

finish-IsLegal :
    (b : Broker) (file : State) (grant : Text) (row : Row) (reconciled : Bool) (now : ℕ)
    → Table.get file grant ≡ some row
    → row.status ⟶ completed
    → IsLegal grant file (finish b file file grant row reconciled now)
unfolding finish
finish-IsLegal b file grant row reconciled now there edge =
    let next = returned (completed_reply row.bound row.identity reconciled) in
    IsLegal-write b.host grant file (Table.update file grant (set_completed now))
      (Table.update file grant (set_completed now), next)
      (IsLegal-update grant file (set_completed now) row next there
        (set_completed-Grows row now edge)
        (λ k. omega (arith, spent-⟶ row (set_completed now row) k edge))
        (λ p h. absurd (ground arith)) (λ h. absurd (ground arith)))

pub after_cell-IsLegal :
    (b : Broker) (file : State) (grant : Text) (row : Row)
    (answer : Result Error (Option CellSnapshot)) (now : ℕ)
    → Table.get file grant ≡ some row
    → row.status ≡ bind_unknown
    → IsLegal grant file (after_cell b file file grant answer now)
unfolding after_cell
after_cell-IsLegal b file grant row (err e) now there at = IsLegal-threw grant file e
after_cell-IsLegal b file grant row (ok snapshot) now there at = elim (Option-cases (both_of row)) [
  | inl nothing ↦ rw (after_cell, there, nothing) (IsLegal-threw grant file bind_outcome_unknown)
  | inr ((id, bound), both) ↦ elim (Bool-cases (snapshot_has snapshot id bound)) [
    | inl has ↦
        rw (after_cell, there, both, has)
          (finish-IsLegal b file grant row true now there (rw (at) bind_found))
    | inr lacks ↦
        rw (after_cell, there, both, lacks) (IsLegal-threw grant file bind_outcome_unknown)
  ]
]

bind_refused-IsLegal :
    (b : Broker) (file : State) (grant : Text) (row : Row) (e : Error) (now : ℕ)
    → Table.get file grant ≡ some row
    → row.status ≡ binding
    → IsLegal grant file (after_bind b file file grant (err e) now)
unfolding after_bind
bind_refused-IsLegal b file grant row network_outcome_unknown now there at =
    give_up-IsLegal b file grant row bind_unknown network_outcome_unknown there (rw (at) bind_lost)
      refl
bind_refused-IsLegal b file grant row e now there at =
    give_up-IsLegal b file grant row bind_rejected e there (rw (at) bind_refused) refl

pub after_bind-IsLegal :
    (b : Broker) (file : State) (grant : Text) (row : Row)
    (answer : Result Error (Option BindResponse)) (now : ℕ)
    → Table.get file grant ≡ some row
    → row.status ≡ binding
    → IsLegal grant file (after_bind b file file grant answer now)
unfolding after_bind
after_bind-IsLegal b file grant row (err e) now there at =
    bind_refused-IsLegal b file grant row e now there at
after_bind-IsLegal b file grant row (ok response) now there at = elim (Option-cases (both_of row)) [
  | inl nothing ↦ rw (after_bind, there, nothing) (IsLegal-threw grant file core_bind_mismatch)
  | inr ((id, bound), both) ↦ elim (Bool-cases (bind_accepted response id bound)) [
    | inl taken ↦
        rw (after_bind, there, both, taken)
          (finish-IsLegal b file grant row false now there (rw (at) bind_done))
    | inr other ↦ rw (after_bind, there, both, other) (IsLegal-threw grant file core_bind_mismatch)
  ]
]

set_bound-Grows :
    (row : Row) (bound : Bound) → row.status ≡ key_ready → Grows row (set_bound bound row)
set_bound-Grows row bound at = record {
  secret = refl;
  identity = λ id h. h;
  path = onward (rw (at) bind_begun) here;
  erased = λ clean done. absurd (ground arith);
}

pub after_nodes-IsLegal :
    (b : Broker) (file : State) (grant : Text) (row : Row)
    (answer : Result Error (List (Option NodeRow))) (now : ℕ)
    → Table.get file grant ≡ some row
    → row.status ≡ key_ready
    → IsLegal grant file (after_nodes b file file grant answer now)
unfolding after_nodes
after_nodes-IsLegal b file grant row answer now there at =
    elim (Result-cases (answer >>= λ rows. resolve_row b row rows now)) [
      | inl (e, bad) ↦ rw (after_nodes, there, bad) (IsLegal-threw grant file e)
      | inr (bound, good) ↦
          let new = Table.update file grant (set_bound bound) in
          let next = waits (record { state = new; grant = grant; awaits = binds }) in
          rw (after_nodes, there, good)
            (IsLegal-write b.host grant file new (new, next)
              (IsLegal-update grant file (set_bound bound) row next there
                (set_bound-Grows row bound at)
                (λ k. elim k [
                  | redemption ↦ ground arith
                  | minting ↦ ground (arith, at)
                  | binding_once ↦ ground (arith, at)
                ])
                (λ p h. ground arith) (λ h. absurd (ground arith))))
    ]

complete_existing-IsLegal :
    (file : State) (grant : Text) (row : Row) (s : Status)
    → Table.get file grant ≡ some row
    → row.status ≡ s
    → IsLegal grant file (file, complete_existing file grant row s)
unfolding complete_existing
complete_existing-IsLegal file grant row completed there at =
    IsLegal-returned grant file (completed_reply row.bound row.identity true)
complete_existing-IsLegal file grant row bind_unknown there at =
    IsLegal-waits grant file row reads_cell there (rw (at) refl) (λ h. absurd (ground arith))
      (λ k. elim k [
        | redemption ↦ ground arith
        | minting ↦ ground arith
        | binding_once ↦ ground arith
      ])
complete_existing-IsLegal file grant row key_ready there at =
    IsLegal-waits grant file row lists_nodes there (rw (at) refl) (λ h. absurd (ground arith))
      (λ k. elim k [
        | redemption ↦ ground arith
        | minting ↦ ground arith
        | binding_once ↦ ground arith
      ])
complete_existing-IsLegal file grant row _ there at =
    IsLegal-threw grant file enrollment_state_conflict

pub complete_at-IsLegal :
    (file : State) (grant : Text) → IsLegal grant file (complete_at file grant)
unfolding complete_at
complete_at-IsLegal file grant = elim (Option-cases (Table.get file grant)) [
  | inl missing ↦ rw (complete_at, missing) (IsLegal-threw grant file enrollment_not_found)
  | inr (row, there) ↦
      rw (complete_at, there) (complete_existing-IsLegal file grant row row.status there refl)
]
