-- ===== src/Fdn/Broker/Completing.antt =====
-- `complete` of the EnrollmentBroker, and what follows its awaits.
use fabushi_backend.Fdn.Broker.Calls.{
  Next, Piece, write, give_up, lists_nodes, binds, reads_cell, returned, threw, waits,
}
use fabushi_backend.Prelude.{
  ℕ, Bool, true, false, not, List, [], ◌∷◌, Option, none, some, text_Eq, Result, ok, err, throw_if,
  or_throw, ◌>>=◌, ◌>>◌, if◌then◌else◌,
}
use fabushi_backend.Text.{Text, codes}
use fabushi_backend.Table
use fabushi_backend.Fdn.Broker.Rows.{
  Error, Status, Identity, Bound, Row, State, Broker, Request, NodeRow, BindResponse, CellSnapshot,
  completed_reply, key_ready, binding, bind_unknown, bind_rejected, completed, invalid_request,
  enrollment_state_conflict, enrollment_not_found, core_bind_mismatch, network_outcome_unknown,
  node_correlation_failed, bind_outcome_unknown,
}
use fabushi_backend.Fdn.Broker.Names.{exact_keys, grant_id, sha256_hex}
use fabushi_backend.Fdn.Broker.Nodes.{
  resolve_node, proof_sha256, binding_expiry_seconds, bind_accepted, snapshot_has,
}

unfoldable pub complete_fields : List Text
complete_fields = codes "grantId" ∷ []

unfoldable pub complete_names : Option Request → Result Error Text
unfolding exact_keys complete_fields grant_id
complete_names request = do
  r ← or_throw request invalid_request
  throw_if (not (exact_keys r.keys complete_fields)) invalid_request
  grant_id r.grant_id

unfoldable pub complete_existing : State → Text → Row → Status → Next
complete_existing file grant row completed = returned (completed_reply row.bound row.identity true)
complete_existing file grant row bind_unknown =
    waits (record { state = file; grant = grant; awaits = reads_cell })
complete_existing file grant row key_ready =
    waits (record { state = file; grant = grant; awaits = lists_nodes })
complete_existing file grant row _ = threw enrollment_state_conflict

unfoldable pub complete_at : State → Text → Piece
unfolding complete_existing
complete_at file grant = elim (Table.get file grant) [
  | none ↦ (file, threw enrollment_not_found)
  | some row ↦ (file, complete_existing file grant row row.status)
]

unfoldable pub complete : State → Option Request → Piece
unfolding complete_names complete_at
complete file request = elim (complete_names request) [
  | err e ↦ (file, threw e)
  | ok grant ↦ complete_at file grant
]

abbrev pub set_completed : ℕ → Row → Row
set_completed now row = record row {
  status = completed;
  completed_at = some now;
  auth_key_envelope = none;
}

-- the row is completed and the call returns
unfoldable pub finish : Broker → State → State → Text → Row → Bool → ℕ → Piece
unfolding write
finish b file state grant row reconciled now =
    let new = Table.update state grant (set_completed now) in
    write b.host file new (new, returned (completed_reply row.bound row.identity reconciled))

-- What the row of a call must have for the checks of an answer: its identity and its binding.
abbrev pub both_of : Row → Option (Identity × Bound)
both_of row = elim row.identity [
  | none ↦ none
  | some id ↦ elim row.bound [ none ↦ none | some bound ↦ some (id, bound) ]
]

-- behind `this.core.snapshot`
unfoldable pub after_cell :
    Broker → State → State → Text → Result Error (Option CellSnapshot) → ℕ → Piece
unfolding finish snapshot_has
after_cell b file state grant (err e) now = (file, threw e)
after_cell b file state grant (ok snapshot) now = elim (Table.get state grant) [
  | none ↦ (file, threw bind_outcome_unknown)
  | some row ↦ elim (both_of row) [
    | none ↦ (file, threw bind_outcome_unknown)
    | some (id, bound) ↦
        if snapshot_has snapshot id bound
        then finish b file state grant row true now
        else (file, threw bind_outcome_unknown)
  ]
]

abbrev pub set_bound : Bound → Row → Row
set_bound bound row = record row { bound = some bound; status = binding }

-- the node of the row's key, with the identity of the row
unfoldable pub resolve_row : Broker → Row → List (Option NodeRow) → ℕ → Result Error Bound
unfolding resolve_node proof_sha256 binding_expiry_seconds sha256_hex
resolve_row b row rows now = do
  id ← or_throw row.identity node_correlation_failed
  key_id ← or_throw row.pre_auth_key_id node_correlation_failed
  node ← resolve_node b.is_ip rows key_id id.cell_id
  ok (record {
    node_id = node.node_id;
    proof_sha256 = proof_sha256 b.host id key_id node;
    binding_expires_at = binding_expiry_seconds node.expiry now;
    machine_key_sha256 = sha256_hex b.host (node.machine_key ∷ []);
    node_key_sha256 = sha256_hex b.host (node.node_key ∷ []);
  })

-- behind `this.headscale.nodes`
unfoldable pub after_nodes :
    Broker → State → State → Text → Result Error (List (Option NodeRow)) → ℕ → Piece
unfolding resolve_row write
after_nodes b file state grant answer now = elim (Table.get state grant) [
  | none ↦ (file, threw node_correlation_failed)
  | some row ↦ elim (answer >>= λ rows. resolve_row b row rows now) [
    | err e ↦ (file, threw e)
    | ok bound ↦
        let new = Table.update state grant (set_bound bound) in
        write b.host file new (new, waits (record { state = new; grant = grant; awaits = binds }))
  ]
]

-- behind `this.core.bind`
unfoldable pub after_bind :
    Broker → State → State → Text → Result Error (Option BindResponse) → ℕ → Piece
unfolding give_up finish bind_accepted
after_bind b file state grant (err network_outcome_unknown) now =
    give_up b file state grant bind_unknown network_outcome_unknown
after_bind b file state grant (err e) now = give_up b file state grant bind_rejected e
after_bind b file state grant (ok response) now = elim (Table.get state grant) [
  | none ↦ (file, threw core_bind_mismatch)
  | some row ↦ elim (both_of row) [
    | none ↦ (file, threw core_bind_mismatch)
    | some (id, bound) ↦
        if bind_accepted response id bound
        then finish b file state grant row false now
        else (file, threw core_bind_mismatch)
  ]
]
