-- ===== src/Money/Budgets.antt =====
-- Budgets and the journal, over every order of checks and batches.
use fabushi_backend.Prelude.{
  ℕ, ◌+◌, ◌≤◌, ◌≡◌, refl, sym, ◌∙◌, inl, inr, arith, zero, suc, List, [], ◌∷◌, ◌++◌, some,
  Option-cases, Bool-cases, text_Eq, ◌==◌, Result, ok, err,
}
use fabushi_backend.Text.{Text, codes}
use fabushi_backend.Table
use fabushi_backend.Money.Amounts.{Error, natural}
use fabushi_backend.Money.Rows.{Campaign, Line, Ledger, Host, Input}
use fabushi_backend.Money.Ads.{Plan, Outcome, duplicate, planned, check}
use fabushi_backend.Money.Batches.{spend, lines_of, written, post}
use fabushi_backend.Table.{Table, get-update}
use fabushi_backend.Money.Checks.{IsPlanned, check-IsPlanned, allocate_two_party_split-exact}
use fabushi_backend.Money.Checks.{gross_amount-allocate}
use fabushi_backend.Money.Histories.{
  Service, Move, checks, posts, with_plan, nth_plan, posted, step, run, given, taken, max_budget,
  AreWithin,
}

-- The shares of a plan that has been made on such a ledger.
pub plan_fits :
    (h : Host) (l : Ledger) (plan : Plan)
    → AreWithin l.campaigns
    → (p : IsPlanned h l plan)
    → p.campaign.spent_amount + plan.event.billable_amount ≤ p.campaign.total_budget
plan_fits h l plan within p =
    let (below, small) = within plan.event.campaign_id p.campaign p.there in
    ground (
      arith,
      h.num.plus_exact p.campaign.spent_amount plan.event.billable_amount,
      h.num.plus_large p.campaign.spent_amount plan.event.billable_amount,
      p.within,
      below,
      small,
    )

pub plan_shares :
    (h : Host) (l : Ledger) (plan : Plan)
    → AreWithin l.campaigns
    → IsPlanned h l plan
    → plan.shares.platform_amount + plan.shares.developer_amount ≡ plan.event.billable_amount
plan_shares h l plan within p =
    let (below, small) = within plan.event.campaign_id p.campaign p.there in
    let fits : p.campaign.spent_amount + plan.event.billable_amount ≤ p.campaign.total_budget =
      plan_fits h l plan within p in
    let gross : plan.shares.gross_amount ≡ plan.event.billable_amount =
      gross_amount-allocate h.num plan.event.billable_amount p.rule.platform_bps
        p.rule.developer_bps plan.shares p.split in
    let (g, a, b, same, _, _, _, _, sum, _, _) =
      allocate_two_party_split-exact h.num (natural plan.event.billable_amount) p.rule.platform_bps
        p.rule.developer_bps plan.shares p.split (omega (arith, gross, fits, small)) in
    sum ∙ ground arith

-- A campaign behind a batch spends no more than its budget.
spend_within :
    (n : ℕ) (c : Campaign)
    → (c.spent_amount ≤ c.total_budget) × (c.total_budget ≤ max_budget)
    → ((spend n c).spent_amount ≤ (spend n c).total_budget)
      × ((spend n c).total_budget ≤ max_budget)
unfolding spend
spend_within n c within = ground (arith, within, Bool-cases (c.status == codes "active"))

pub written_within :
    (l : Ledger) (plan : Plan) → AreWithin l.campaigns → AreWithin (written l plan).campaigns
unfolding written
written_within l plan within id c there = elim (Option-cases (Table.get l.campaigns id)) [
  | inl missing ↦ absurd (
      ground (
        arith,
        missing,
        there,
        get-update l.campaigns plan.event.campaign_id id (spend plan.event.billable_amount),
      ))
  | inr (old, was) ↦ elim (Bool-cases (plan.event.campaign_id == id)) [
    | inl same ↦
        let now : c ≡ spend plan.event.billable_amount old = ground (
          arith,
          same,
          was,
          there,
          get-update l.campaigns plan.event.campaign_id id (spend plan.event.billable_amount),
        ) in
        rw (now) (spend_within plan.event.billable_amount old (within id old was))
    | inr other ↦ within id c (
        ground (
          arith,
          other,
          was,
          there,
          get-update l.campaigns plan.event.campaign_id id (spend plan.event.billable_amount),
        ))
  ]
]

given-append : (xs ys : List Line) → given (xs ++ ys) ≡ given xs + given ys
unfolding given
given-append [] ys = omega arith
given-append (l ∷ xs) ys = omega (arith, given-append xs ys)

taken-append : (xs ys : List Line) → taken (xs ++ ys) ≡ taken xs + taken ys
unfolding taken
taken-append [] ys = omega arith
taken-append (l ∷ xs) ys = omega (arith, taken-append xs ys)

written_balanced :
    (l : Ledger) (plan : Plan)
    → plan.shares.platform_amount + plan.shares.developer_amount ≡ plan.event.billable_amount
    → given l.lines ≡ taken l.lines
    → given (written l plan).lines ≡ taken (written l plan).lines
unfolding written lines_of given taken
written_balanced l plan whole balanced =
    given-append (lines_of plan) l.lines
    ∙ omega (arith, whole, balanced)
    ∙ sym (taken-append (lines_of plan) l.lines)

-- What every history keeps, whatever comes between a check and its batch.
pub record IsKept (s : Service) : Type 0 where
  pub within : AreWithin s.ledger.campaigns
  pub balanced : given s.ledger.lines ≡ taken s.ledger.lines
  pub whole :
      (n : ℕ) (plan : Plan)
      → nth_plan n s.plans ≡ some plan
      → plan.shares.platform_amount + plan.shares.developer_amount ≡ plan.event.billable_amount

with_plan-IsKept :
    (h : Host) (s : Service) (input : Input) (uuid : Text) (now : ℕ) (r : Result Error Outcome)
    → check h s.ledger input uuid now ≡ r
    → IsKept s
    → IsKept (with_plan s r)
unfolding with_plan nth_plan
with_plan-IsKept h s input uuid now (err e) made kept = kept
with_plan-IsKept h s input uuid now (ok (duplicate id)) made kept = kept
with_plan-IsKept h s input uuid now (ok (planned plan)) made kept = record {
  within = kept.within;
  balanced = kept.balanced;
  whole = λ n p at. first n p at;
}
  where
    first :
        (n : ℕ) (p : Plan)
        → nth_plan n (plan ∷ s.plans) ≡ some p
        → p.shares.platform_amount + p.shares.developer_amount ≡ p.event.billable_amount
    first zero p at =
        let same : plan ≡ p = ground arith in
        rw (← same) (
          plan_shares h s.ledger plan kept.within
            (check-IsPlanned h s.ledger input uuid now plan made))
    first (suc n) p at = kept.whole n p at

post-IsKept :
    (h : Host) (s : Service) (plan : Plan)
    → plan.shares.platform_amount + plan.shares.developer_amount ≡ plan.event.billable_amount
    → IsKept s
    → IsKept (posted h s (some plan))
unfolding posted post
post-IsKept h s plan whole kept = elim (Bool-cases (h.accepts s.ledger (written s.ledger plan))) [
  | inl accepted ↦ rw (accepted) record {
    within = written_within s.ledger plan kept.within;
    balanced = written_balanced s.ledger plan whole kept.balanced;
    whole = kept.whole;
  }
  | inr refused ↦ rw (refused) kept
]

step-IsKept : (h : Host) (s : Service) (m : Move) → IsKept s → IsKept (step h s m)
unfolding step posted
step-IsKept h s (checks input uuid now) kept =
    with_plan-IsKept h s input uuid now (check h s.ledger input uuid now) refl kept
step-IsKept h s (posts n) kept = elim (Option-cases (nth_plan n s.plans)) [
  | inl nothing ↦ rw (nothing) kept
  | inr (plan, at) ↦ rw (at) (post-IsKept h s plan (kept.whole n plan at) kept)
]

pub run-IsKept : (h : Host) (s : Service) (ms : List Move) → IsKept s → IsKept (run h s ms)
unfolding run
run-IsKept h s [] kept = kept
run-IsKept h s (m ∷ ms) kept = run-IsKept h (step h s m) ms (step-IsKept h s m kept)

idle-IsKept :
    (l : Ledger)
    → AreWithin l.campaigns
    → given l.lines ≡ taken l.lines
    → IsKept (record { ledger = l; plans = [] })
unfolding nth_plan
idle-IsKept l within balanced = record {
  within = within;
  balanced = balanced;
  whole = λ n plan at. absurd (ground arith);
}

-- In every history of advertisement events, in whatever order checks and batches follow one another
-- and whatever batches the schema refuses, no campaign spends more than its budget and the journal
-- stays balanced: what its lines give is what they take. It begins with no call under way, a balanced
-- journal, and campaigns within budgets of at most a ten-thousandth of 2^53.
pub run-AreWithin :
    (h : Host) (l : Ledger) (ms : List Move)
    → AreWithin l.campaigns
    → given l.lines ≡ taken l.lines
    → AreWithin (run h (record { ledger = l; plans = [] }) ms).ledger.campaigns
      × (given (run h (record { ledger = l; plans = [] }) ms).ledger.lines
          ≡ taken (run h (record { ledger = l; plans = [] }) ms).ledger.lines)
run-AreWithin h l ms within balanced =
    let kept =
      run-IsKept h (record { ledger = l; plans = [] }) ms (idle-IsKept l within balanced) in
    (kept.within, kept.balanced)
