-- ===== src/Fdn/Broker/Legal.antt =====
-- What a piece of a call may do to the enrollment of its grant, where no other call is under way.
pub mod Starts
pub mod KeyPieces
pub mod Completes
pub mod Resumes
use fabushi_backend.Fdn.Broker.Life.{
  Once, issues, spent, fits, Grows, Evolves, Evolves-refl, Grows-Evolves,
}
use fabushi_backend.Prelude.{
  ℕ, ◌+◌, ◌≤◌, ◌≡◌, refl, sym, ap, ◌∙◌, Bool, true, false, ◌&&◌, List, [], ◌∷◌, Option, none, some,
  inl, inr, arith, Bool-cases, Option-cases, text_Eq, text_beq_iff, ◌==◌, if◌then◌else◌, leb,
}
use fabushi_backend.Text.{Text}
use fabushi_backend.Table
use fabushi_backend.Table.{get-update, get-upsert}
use mathlib.Core.Option
use fabushi_backend.Fdn.Broker.Rows.{
  Status, redeeming, redeem_unknown, redeem_rejected, wrong_cell, redeemed, expired, mint_unknown,
  key_ready, binding, bind_unknown, bind_rejected, completed, Identity, Row, State, Host, Error,
  Reply, state_too_large,
}
use fabushi_backend.Fdn.Broker.Calls.{
  Await, redeems, mints, lists_keys, lists_nodes, binds, reads_cell, Pending, Next, returned, threw,
  waits, Piece, write, max_state_bytes,
}

pub record IsReady (p : Pending) : Type 0 where
  pub row : Row
  pub there : Table.get p.state p.grant ≡ some row
  pub at : fits p.awaits row.status ≡ true
  pub fresh : row.status ≡ redeeming → row.identity ≡ none

pub record IsLegal (grant : Text) (file : State) (piece : Piece) : Type 0 where
  pub others : (j : Text) → (grant == j) ≡ false → Table.get piece.0 j ≡ Table.get file j
  pub budget :
      (k : Once)
      → issues k piece.1 + spent k (Table.get file grant) ≤ spent k (Table.get piece.0 grant)
  pub evolves : Evolves (Table.get file grant) (Table.get piece.0 grant)
  pub ready :
      (p : Pending) → piece.1 ≡ waits p → (p.state ≡ piece.0) × (p.grant ≡ grant) × IsReady p

-- A piece that leaves the file and waits for nothing.
pub IsLegal-ends :
    (grant : Text) (file : State) (next : Next)
    → ((k : Once) → issues k next ≡ 0)
    → ((p : Pending) → next ≡ waits p → ⊥)
    → IsLegal grant file (file, next)
IsLegal-ends grant file next none_sent ended = record {
  others = λ j h. refl;
  budget = λ k. omega (arith, none_sent k);
  evolves = Evolves-refl (Table.get file grant);
  ready = λ p h. absurd (ended p h);
}

pub IsLegal-threw : (grant : Text) (file : State) (e : Error) → IsLegal grant file (file, threw e)
IsLegal-threw grant file e =
    IsLegal-ends grant file (threw e) (λ k. refl) (λ p h. absurd (ground arith))

pub IsLegal-returned :
    (grant : Text) (file : State) (r : Reply) → IsLegal grant file (file, returned r)
IsLegal-returned grant file r =
    IsLegal-ends grant file (returned r) (λ k. refl) (λ p h. absurd (ground arith))

-- A write that fails leaves the file.
pub IsLegal-write :
    (h : Host) (grant : Text) (file new : State) (piece : Piece)
    → IsLegal grant file piece
    → IsLegal grant file (write h file new piece)
unfolding write
IsLegal-write h grant file new piece legal = elim (Bool-cases (leb (h.size new) max_state_bytes)) [
  | inl fits_in ↦ rw (fits_in) legal
  | inr too_large ↦ rw (too_large) (IsLegal-threw grant file state_too_large)
]

-- What is done with the row of the grant.
pub get-update_same :
    (file : State) (grant : Text) (f : Row → Row) (row : Row)
    → Table.get file grant ≡ some row
    → Table.get (Table.update file grant f) grant ≡ some (f row)
get-update_same file grant f row there =
    ground (arith, get-update file grant grant f, text_beq_iff grant grant)

pub get-update_other :
    (file : State) (grant j : Text) (f : Row → Row)
    → (grant == j) ≡ false
    → Table.get (Table.update file grant f) j ≡ Table.get file j
get-update_other file grant j f other = ground (arith, get-update file grant j f)

-- The row of the grant is changed, and the call goes on.
pub IsLegal-update :
    (grant : Text) (file : State) (f : Row → Row) (row : Row) (next : Next)
    → Table.get file grant ≡ some row
    → Grows row (f row)
    → ((k : Once) → issues k next + spent k (some row) ≤ spent k (some (f row)))
    → ((p : Pending)
        → next ≡ waits p
        → (p.state ≡ Table.update file grant f)
          × (p.grant ≡ grant)
          × (fits p.awaits (f row).status ≡ true))
    → ((f row).status ≡ redeeming → (f row).identity ≡ none)
    → IsLegal grant file (Table.update file grant f, next)
IsLegal-update grant file f row next there grows within ready fresh = record {
  others = λ j other. get-update_other file grant j f other;
  budget = λ k. rw (there, now) (within k);
  evolves = rw (there, now) grows;
  ready = λ p h.
      let (state, same, at) = ready p h in
      (
        state,
        same,
        record {
          row = f row;
          there =
              ap (λ s. Table.get s p.grant) state
              ∙ ap (Table.get (Table.update file grant f)) same
              ∙ now;
          at = at;
          fresh = fresh;
        },
      );
}
  where
    now : Table.get (Table.update file grant f) grant ≡ some (f row)
    now = get-update_same file grant f row there

-- The row of the grant has been changed before the piece.
pub IsLegal-after :
    (grant : Text) (file : State) (f : Row → Row) (row : Row) (piece : Piece)
    → Table.get file grant ≡ some row
    → Grows row (f row)
    → ((k : Once) → spent k (some row) ≤ spent k (some (f row)))
    → IsLegal grant (Table.update file grant f) piece
    → IsLegal grant file piece
IsLegal-after grant file f row piece there grows within legal = record {
  others = λ j other. legal.others j other ∙ get-update_other file grant j f other;
  budget = λ k.
      let b : issues k piece.1 + spent k (some (f row)) ≤ spent k (Table.get piece.0 grant) =
        rw (← now) (legal.budget k) in
      rw (there) (omega (arith, b, within k));
  evolves =
      rw (there)
        (Grows-Evolves row (f row) (Table.get piece.0 grant) grows (rw (← now) legal.evolves));
  ready = legal.ready;
}
  where
    now : Table.get (Table.update file grant f) grant ≡ some (f row)
    now = get-update_same file grant f row there

-- The grant gets its row.
pub IsLegal-create :
    (grant : Text) (file : State) (row : Row) (next : Next)
    → Table.get file grant ≡ none
    → (row.status ≡ completed → row.auth_key_envelope ≡ none)
    → ((k : Once) → issues k next ≤ spent k (some row))
    → ((p : Pending)
        → next ≡ waits p
        → (p.state ≡ Table.upsert file grant row)
          × (p.grant ≡ grant)
          × (fits p.awaits row.status ≡ true))
    → (row.status ≡ redeeming → row.identity ≡ none)
    → IsLegal grant file (Table.upsert file grant row, next)
IsLegal-create grant file row next missing clean within ready fresh = record {
  others = λ j other. ground (arith, get-upsert file grant j row, other);
  budget = λ k. rw (missing, now) (omega (arith, within k));
  evolves = rw (missing, now) clean;
  ready = λ p h.
      let (state, same, at) = ready p h in
      (
        state,
        same,
        record {
          row = row;
          there =
              ap (λ s. Table.get s p.grant) state
              ∙ ap (Table.get (Table.upsert file grant row)) same
              ∙ now;
          at = at;
          fresh = fresh;
        },
      );
}
  where
    now : Table.get (Table.upsert file grant row) grant ≡ some row
    now = ground (arith, get-upsert file grant grant row, text_beq_iff grant grant)
