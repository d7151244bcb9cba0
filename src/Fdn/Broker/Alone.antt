-- ===== src/Fdn/Broker/Alone.antt =====
-- Histories of the broker in which no call begins while another is under way.
use fabushi_backend.Fdn.Broker.Sound.{sent_of, idle-IsSound, run_alone-IsSound, IsSound-here}
use mathlib.Core.Path.{subst}
use fabushi_backend.Prelude.{
  ℕ, ◌+◌, ◌≤◌, ◌≡◌, List, [], Option, none, some, inl, inr, arith, Option-cases, text_Eq,
}
use fabushi_backend.Text.{Text}
use fabushi_backend.Table
use fabushi_backend.Fdn.Broker.Rows.{
  Status, Row, State, Broker, redeeming, binding, bind_unknown, bind_rejected, completed,
}
use fabushi_backend.Fdn.Broker.Life.{
  Once, redemption, minting, binding_once, minting_of, binding_of, spent, Grows, Evolves,
}
use fabushi_backend.Fdn.Broker.Service.{idle, Event, run_alone}

spent_bound : (k : Once) (o : Option Row) → spent k o ≤ 1
spent_bound k none = ground arith
spent_bound redemption (some row) = ground arith
spent_bound minting (some row) = minted row.status
  where
    minted : (s : Status) → minting_of s ≤ 1
    minted redeeming = ground arith
    minted s = ground arith
spent_bound binding_once (some row) = bound row.status
  where
    bound : (s : Status) → binding_of s ≤ 1
    bound binding = ground arith
    bound bind_unknown = ground arith
    bound bind_rejected = ground arith
    bound completed = ground arith
    bound s = ground arith

-- In every history in which no call begins while another is under way, whatever the clients answer,
-- whichever writes are refused for their size and wherever the process stops, a grant is redeemed,
-- its key is minted and its device is bound at most once each, and not at all where the row in the
-- file at the beginning says that it may have been done before.
pub sent_of-run_alone :
    (b : Broker) (file : State) (es : List (ℕ × Event)) (k : Once) (grant : Text)
    → sent_of k grant (run_alone b (idle file) es).sent + spent k (Table.get file grant) ≤ 1
sent_of-run_alone b file es k grant =
    let s = run_alone b (idle file) es in
    let sound = run_alone-IsSound b file [] (idle file) es (idle-IsSound file) in
    omega (arith, sound.paid k grant, spent_bound k (Table.get s.file grant))

-- In such a history, once a grant has its row, whether it was in the file at the beginning or a call
-- has made it, the row never disappears, whatever happens later: it keeps its secret and an identity
-- that it has got, its status only moves along the edges of an enrollment's life, and where it is
-- completed it has no key, unless it was completed with one.
pub run_alone-Grows :
    (b : Broker) (file : State) (before later : List (ℕ × Event)) (grant : Text) (row : Row)
    → Table.get (run_alone b (idle file) before).file grant ≡ some row
    → (row' : Row) × (Table.get (run_alone b (run_alone b (idle file) before) later).file grant
        ≡ some row')
      × Grows row row'
run_alone-Grows b file before later grant row there =
    let s = run_alone b (idle file) before in
    let s' = run_alone b s later in
    let began = run_alone-IsSound b file [] (idle file) before (idle-IsSound file) in
    let sound = run_alone-IsSound b s.file s.sent s later (IsSound-here file [] s began) in
    let life : Evolves (some row) (Table.get s'.file grant) = rw (← there) (sound.life grant) in
    elim (Option-cases (Table.get s'.file grant)) [
      | inl gone ↦ absurd (subst (Evolves (some row)) gone life)
      | inr (row', now) ↦ (row', now, subst (Evolves (some row)) now life)
    ]
