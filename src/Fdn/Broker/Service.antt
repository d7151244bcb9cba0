-- ===== src/Fdn/Broker/Service.antt =====
-- The broker under its service (fdn-network-coordinator/enrollment-service.mjs): calls that begin, go
-- on when a client answers, and are lost when the process stops. `step` lets calls overlap, as the
-- service does; `step_alone` begins a call only when no other is under way.
use fabushi_backend.Prelude.{ℕ, zero, suc, List, [], ◌∷◌, Option, none, some, Result}
use fabushi_backend.Text.{Text}
use fabushi_backend.Fdn.Broker.Rows.{
  Error, State, Broker, Request, CoreValue, KeyRow, NodeRow, BindResponse, CellSnapshot,
}
use fabushi_backend.Fdn.Broker.Calls.{
  Await, redeems, mints, lists_keys, lists_nodes, binds, reads_cell, Pending, returned, threw,
  waits, Piece,
}
use fabushi_backend.Fdn.Broker.Starting.{start, after_redeem, after_mint, after_keys}
use fabushi_backend.Fdn.Broker.Completing.{complete, after_nodes, after_bind, after_cell}

-- What a client answers, or how it fails.
pub data Answer : Type 0 where
  of_redeem : Result Error (Option CoreValue) → Answer
  of_mint : Result Error Text → Answer
  of_keys : Result Error (List (Option KeyRow)) → Text → Answer
  of_nodes : Result Error (List (Option NodeRow)) → Answer
  of_bind : Result Error (Option BindResponse) → Answer
  of_cell : Result Error (Option CellSnapshot) → Answer

-- The piece of a call behind the answer it awaits; an answer of another client is for another call.
unfoldable pub resume : Broker → State → State → Text → Await → Answer → ℕ → Option Piece
unfolding after_redeem after_mint after_keys after_nodes after_bind after_cell
resume b file state grant (redeems digest) (of_redeem answer) now =
    some (after_redeem b file state grant answer now)
resume b file state grant (mints id) (of_mint answer) now =
    some (after_mint b file state grant id answer)
resume b file state grant (lists_keys id raw) (of_keys answer iv) now =
    some (after_keys b file state grant id raw answer iv)
resume b file state grant lists_nodes (of_nodes answer) now =
    some (after_nodes b file state grant answer now)
resume b file state grant binds (of_bind answer) now =
    some (after_bind b file state grant answer now)
resume b file state grant reads_cell (of_cell answer) now =
    some (after_cell b file state grant answer now)
resume b file state grant await answer now = none

-- The file, the calls under way, and the requests that were sent to clients, the latest first.
pub record Service : Type 0 where
  pub file : State
  pub tasks : List Pending
  pub sent : List (Text × Await)

abbrev pub idle : State → Service
idle file = record { file = file; tasks = []; sent = [] }

pub data Event : Type 0 where
  starts completes : Option Request → Event
  answers : ℕ → Answer → Event
  stops : Event

-- A call that waits is a task, and its request has been sent.
unfoldable pub settle : Service → List Pending → Piece → Service
settle s rest (file, waits p) = record {
  file = file;
  tasks = p ∷ rest;
  sent = (p.grant, p.awaits) ∷ s.sent;
}
settle s rest (file, returned r) = record s { file = file; tasks = rest }
settle s rest (file, threw e) = record s { file = file; tasks = rest }

-- the task at a place, and the others
unfoldable pub pick : ℕ → List Pending → Option (Pending × List Pending)
pick n [] = none
pick zero (p ∷ ps) = some (p, ps)
pick (suc n) (p ∷ ps) = elim (pick n ps) [ none ↦ none | some (q, qs) ↦ some (q, p ∷ qs) ]

unfoldable pub answer_task :
    Broker → Service → Option (Pending × List Pending) → Answer → ℕ → Service
unfolding resume settle
answer_task b s none answer now = s
answer_task b s (some (p, rest)) answer now =
    elim (resume b s.file p.state p.grant p.awaits answer now) [
      | none ↦ s
      | some piece ↦ settle s rest piece
    ]

unfoldable pub step : Broker → Service → ℕ × Event → Service
unfolding start complete settle pick answer_task
step b s (now, starts request) = settle s s.tasks (start b s.file request now)
step b s (now, completes request) = settle s s.tasks (complete s.file request)
step b s (now, answers n answer) = answer_task b s (pick n s.tasks) answer now
step b s (now, stops) = record s { tasks = [] }

unfoldable pub run : Broker → Service → List (ℕ × Event) → Service
unfolding step
run b s [] = s
run b s (e ∷ es) = run b (step b s e) es

-- A call begins only where no task is under way.
abbrev pub begins_at : List Pending → Service → Service → Service
begins_at [] s next = next
begins_at (p ∷ ps) s next = s

unfoldable pub step_alone : Broker → Service → ℕ × Event → Service
unfolding step
step_alone b s (now, starts request) = begins_at s.tasks s (step b s (now, starts request))
step_alone b s (now, completes request) = begins_at s.tasks s (step b s (now, completes request))
step_alone b s e = step b s e

unfoldable pub run_alone : Broker → Service → List (ℕ × Event) → Service
unfolding step_alone
run_alone b s [] = s
run_alone b s (e ∷ es) = run_alone b (step_alone b s e) es
