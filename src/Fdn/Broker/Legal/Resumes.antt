-- ===== src/Fdn/Broker/Legal/Resumes.antt =====
-- Whatever begins a call, and whatever a client answers to one that is ready.
use mathlib.Core.Path.{subst}
use fabushi_backend.Prelude.{
  ℕ, ◌≡◌, refl, true, [], Option, none, some, inl, inr, arith, Result-cases, text_Eq,
}
use fabushi_backend.Text.{Text}
use fabushi_backend.Table
use fabushi_backend.Fdn.Broker.Rows.{
  Status, Row, State, Broker, Request, redeeming, redeemed, key_ready, binding, bind_unknown,
}
use fabushi_backend.Fdn.Broker.Calls.{
  Await, redeems, mints, lists_keys, lists_nodes, binds, reads_cell, Piece,
}
use fabushi_backend.Fdn.Broker.Starting.{start_names, start}
use fabushi_backend.Fdn.Broker.Completing.{complete_names, complete}
use fabushi_backend.Fdn.Broker.Life.{fits}
use fabushi_backend.Fdn.Broker.Legal.{IsLegal, IsLegal-threw}
use fabushi_backend.Fdn.Broker.Legal.KeyPieces.{start_at-IsLegal, after_keys-IsLegal}
use fabushi_backend.Fdn.Broker.Legal.Starts.{after_redeem-IsLegal, after_mint-IsLegal}
use fabushi_backend.Fdn.Broker.Legal.Completes.{
  complete_at-IsLegal, after_cell-IsLegal, after_bind-IsLegal, after_nodes-IsLegal,
}
use fabushi_backend.Fdn.Broker.Service.{
  Answer, of_redeem, of_mint, of_keys, of_nodes, of_bind, of_cell, resume,
}

pub start-IsLegal :
    (b : Broker) (file : State) (request : Option Request) (now : ℕ)
    → (grant : Text) × IsLegal grant file (start b file request now)
unfolding start
start-IsLegal b file request now = elim (Result-cases (start_names b.host request)) [
  | inl (e, bad) ↦ ([], rw (start, bad) (IsLegal-threw [] file e))
  | inr ((grant, digest), good) ↦
      (grant, rw (start, good) (start_at-IsLegal b file grant digest now))
]

pub complete-IsLegal :
    (file : State) (request : Option Request)
    → (grant : Text) × IsLegal grant file (complete file request)
unfolding complete
complete-IsLegal file request = elim (Result-cases (complete_names request)) [
  | inl (e, bad) ↦ ([], rw (complete, bad) (IsLegal-threw [] file e))
  | inr (grant, good) ↦ (grant, rw (complete, good) (complete_at-IsLegal file grant))
]

-- The one status that fits an await.
unfoldable pub status_of : Await → Status
status_of (redeems digest) = redeeming
status_of (mints id) = redeemed
status_of (lists_keys id raw) = redeemed
status_of lists_nodes = key_ready
status_of binds = binding
status_of reads_cell = bind_unknown

pub fits-status_of : (a : Await) (s : Status) → fits a s ≡ true → s ≡ status_of a
unfolding status_of
fits-status_of (redeems digest) redeeming h = refl
fits-status_of (mints id) redeemed h = refl
fits-status_of (lists_keys id raw) redeemed h = refl
fits-status_of lists_nodes key_ready h = refl
fits-status_of binds binding h = refl
fits-status_of reads_cell bind_unknown h = refl
fits-status_of a s h = absurd (ground arith)

went_on : {p q : Piece} → some p ≡ some q → p ≡ q
went_on h = ground arith

-- A call that is ready goes on legally, whatever it is answered.
pub resume-IsLegal :
    (b : Broker) (file : State) (grant : Text) (row : Row) (a : Await) (answer : Answer) (now : ℕ)
    (piece : Piece)
    → Table.get file grant ≡ some row
    → row.status ≡ status_of a
    → (row.status ≡ redeeming → row.identity ≡ none)
    → resume b file file grant a answer now ≡ some piece
    → IsLegal grant file piece
unfolding resume status_of
resume-IsLegal b file grant row (redeems digest) (of_redeem answer) now piece there at fresh went =
    subst (IsLegal grant file) (went_on went)
      (after_redeem-IsLegal b file grant row answer now there at (fresh at))
resume-IsLegal b file grant row (mints id) (of_mint answer) now piece there at fresh went =
    subst (IsLegal grant file) (went_on went)
      (after_mint-IsLegal b file grant row id answer there at)
resume-IsLegal b file grant row (lists_keys id raw) (of_keys answer iv) now piece there at fresh
      went =
    subst (IsLegal grant file) (went_on went)
      (after_keys-IsLegal b file grant row id raw answer iv there at)
resume-IsLegal b file grant row lists_nodes (of_nodes answer) now piece there at fresh went =
    subst (IsLegal grant file) (went_on went)
      (after_nodes-IsLegal b file grant row answer now there at)
resume-IsLegal b file grant row binds (of_bind answer) now piece there at fresh went =
    subst (IsLegal grant file) (went_on went)
      (after_bind-IsLegal b file grant row answer now there at)
resume-IsLegal b file grant row reads_cell (of_cell answer) now piece there at fresh went =
    subst (IsLegal grant file) (went_on went)
      (after_cell-IsLegal b file grant row answer now there at)
resume-IsLegal b file grant row a answer now piece there at fresh went = absurd (ground arith)
