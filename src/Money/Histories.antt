-- ===== src/Money/Histories.antt =====
-- Histories of recordVerifiedAdRevenue: `run` lets other calls come between the check of a call and
-- its batch, as the service does; `run_alone` does not.
use fabushi_backend.Prelude.{
  ℕ, ◌+◌, ◌≤◌, ◌≡◌, zero, suc, after, List, [], ◌∷◌, Option, none, some, text_Eq, ◌==◌, Result, ok,
  err, if◌then◌else◌,
}
use fabushi_backend.Text.{Text}
use fabushi_backend.Table
use fabushi_backend.Money.Amounts.{Error}
use fabushi_backend.Money.Rows.{Campaign, AdEvent, plus, minus, Line, Ledger, Host, Input}
use fabushi_backend.Money.Ads.{Plan, Outcome, duplicate, planned, check}
use fabushi_backend.Money.Batches.{post, record_ad}
use fabushi_backend.Table.{Table, get-update}

unfoldable pub billed : Text → List AdEvent → ℕ
billed id [] = 0
billed id (e ∷ es) = (if e.campaign_id == id then e.billable_amount else 0) + billed id es

-- A ledger, and the plans of the calls that have checked and not yet written.
pub record Service : Type 0 where
  pub ledger : Ledger
  pub plans : List Plan

pub data Move : Type 0 where
  checks : Input → Text → ℕ → Move
  posts : ℕ → Move

unfoldable pub with_plan : Service → Result Error Outcome → Service
with_plan s (ok (planned plan)) = record s { plans = plan ∷ s.plans }
with_plan s (ok (duplicate id)) = s
with_plan s (err e) = s

unfoldable pub nth_plan : ℕ → List Plan → Option Plan
nth_plan n [] = none
nth_plan zero (p ∷ ps) = some p
nth_plan (suc n) (p ∷ ps) = nth_plan n ps

unfoldable pub posted : Host → Service → Option Plan → Service
unfolding post
posted h s none = s
posted h s (some plan) = record s { ledger = after s.ledger (post h s.ledger plan) }

unfoldable pub step : Host → Service → Move → Service
unfolding check with_plan nth_plan posted
step h s (checks input uuid now) = with_plan s (check h s.ledger input uuid now)
step h s (posts n) = posted h s (nth_plan n s.plans)

unfoldable pub run : Host → Service → List Move → Service
unfolding step
run h s [] = s
run h s (m ∷ ms) = run h (step h s m) ms

unfoldable pub run_alone : Host → Ledger → List (Input × Text × ℕ) → Ledger
unfolding record_ad
run_alone h l [] = l
run_alone h l ((input, uuid, now) ∷ calls) =
    run_alone h (after l (record_ad h l input uuid now)) calls

-- What the lines of a journal give and take in all.
unfoldable pub given : List Line → ℕ
given [] = 0
given (l ∷ ls) = elim l.amount [ plus n ↦ n | minus n ↦ 0 ] + given ls

unfoldable pub taken : List Line → ℕ
taken [] = 0
taken (l ∷ ls) = elim l.amount [ plus n ↦ 0 | minus n ↦ n ] + taken ls

-- A budget for which the doubles are exact.
abbrev pub max_budget : ℕ
max_budget = 900719925474

-- Every campaign has such a budget, and has not spent more.
abbrev pub AreWithin : Table Text Campaign → Type 0
AreWithin campaigns =
    (id : Text) (c : Campaign)
    → Table.get campaigns id ≡ some c
    → (c.spent_amount ≤ c.total_budget) × (c.total_budget ≤ max_budget)
