-- ===== src/Publisher/Calls.antt =====
-- The calls that a client can make of the store, and what an account may do to a namespace.
use fabushi_backend.Prelude.{ℕ, ◌≡◌, ◌≢◌, List, [], ◌∷◌, Option, none, some, Result, after}
use fabushi_backend.Code.{Code}
use fabushi_backend.Text.{Text, Locale}
use fabushi_backend.Publisher.{
  Store, Namespace, create, update, propose_transfer, accept_transfer, cancel_transfer,
}

-- Each call has the raw namespace and the raw account that makes it.
pub data Call : Type 0 where
  creates : Option Text → ℕ → Call
  updates : Option Text → ℕ → Call
  proposes : Option Text → Text → ℕ → Call
  accepts : Option Text → ℕ → Call
  cancels : ℕ → Call

pub record Request : Type 0 where
  pub namespace : Option Text
  pub account : Option Text
  pub call : Call

unfoldable pub dispatch : Locale → Store → Option Text → Option Text → Call → Result Code Store
unfolding create update propose_transfer accept_transfer cancel_transfer
dispatch l st ns account (creates shown now) = create l st ns shown account now
dispatch l st ns account (updates shown now) = update l st ns account shown now
dispatch l st ns account (proposes target id now) = propose_transfer l st ns account target id now
dispatch l st ns account (accepts id now) = accept_transfer l st ns account id now
dispatch l st ns account (cancels now) = cancel_transfer l st ns account now

-- The store behind a request; one that throws leaves it alone.
unfoldable pub step : Locale → Store → Request → Store
step l st r = after st (dispatch l st r.namespace r.account r.call)

unfoldable pub run : Locale → Store → List Request → Store
run l st [] = st
run l st (r ∷ rs) = run l (step l st r) rs

-- What the rows say of one namespace.
pub data Ownership : Type 0 where
  free : Ownership
  held : Text → Ownership
  offered : Text → Text → Text → Ownership

abbrev pub pending_view : Text → Option Text → Option Text → Ownership
pending_view owner (some transfer_id) (some target) = offered owner target transfer_id
pending_view owner (some transfer_id) none = held owner
pending_view owner none target = held owner

abbrev pub view : Option Namespace → Ownership
view none = free
view (some row) =
    pending_view row.owner_account_id row.pending_transfer_id row.pending_target_account_id

abbrev pub owner_of : Ownership → Option Text
owner_of free = none
owner_of (held owner) = some owner
owner_of (offered owner target transfer_id) = some owner

-- The automaton of one namespace: what a request of the account `who` may do to it.
pub data Move (who : Text) (v w : Ownership) : Type 0 where
  keep : w ≡ v → Move who v w
  claim : v ≡ free → w ≡ held who → Move who v w
  offer :
      (target transfer_id : Text)
      → owner_of v ≡ some who
      → target ≢ who
      → w ≡ offered who target transfer_id
      → Move who v w
  accept :
      (owner transfer_id : Text) → v ≡ offered owner who transfer_id → w ≡ held who → Move who v w
  cancel :
      (target transfer_id : Text) → v ≡ offered who target transfer_id → w ≡ held who → Move who v w
