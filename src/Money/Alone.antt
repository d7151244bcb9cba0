-- ===== src/Money/Alone.antt =====
-- Calls that nothing comes between.
use fabushi_backend.Prelude.{
  ℕ, ◌+◌, ◌≤◌, ◌≡◌, refl, sym, ap, ◌∙◌, inl, inr, arith, true, after, List, [], ◌∷◌, none, some,
  Result-cases, Bool-cases, text_Eq, ◌==◌, text_beq_iff, if◌then◌else◌,
}
use fabushi_backend.Text.{Text, codes}
use fabushi_backend.Table
use fabushi_backend.Money.Rows.{Campaign, AdEvent, Ledger, Host, Input}
use fabushi_backend.Money.Ads.{Plan, duplicate, planned, event_with, check}
use fabushi_backend.Money.Batches.{spend, written, post, record_ad}
use fabushi_backend.Table.{Table, get-update}
use fabushi_backend.Money.Checks.{IsPlanned, check-IsPlanned}
use fabushi_backend.Money.Histories.{billed, run_alone, AreWithin}
use fabushi_backend.Money.Budgets.{plan_fits, written_within}

-- the events of an idempotency key
unfoldable pub uses_of : Text → List AdEvent → ℕ
uses_of key [] = 0
uses_of key (e ∷ es) = (if e.idempotency_key == key then 1 else 0) + uses_of key es

uses_of-event_with :
    (key : Text) (es : List AdEvent) → event_with key es ≡ none → uses_of key es ≡ 0
unfolding uses_of event_with
uses_of-event_with key [] fresh = refl
uses_of-event_with key (e ∷ es) fresh = elim (Bool-cases (e.idempotency_key == key)) [
  | inl same ↦ absurd (ground (arith, fresh, same))
  | inr differs ↦
      let before : event_with key es ≡ none = ground (arith, fresh, differs) in
      rw (differs) (omega (arith, uses_of-event_with key es before))
]

-- A ledger whose campaigns have spent what their events have been billed, within their budgets, and
-- whose events have idempotency keys of their own.
pub record IsExact (l : Ledger) : Type 0 where
  pub within : AreWithin l.campaigns
  pub spent :
      (id : Text) (c : Campaign)
      → Table.get l.campaigns id ≡ some c
      → billed id l.ad_events ≡ c.spent_amount
  pub once : (key : Text) → uses_of key l.ad_events ≤ 1

-- A campaign that is active and has the budget spends it.
spend_fits :
    (n : ℕ) (c : Campaign)
    → (c.status == codes "active") ≡ true
    → c.spent_amount + n ≤ c.total_budget
    → (spend n c).spent_amount ≡ c.spent_amount + n
unfolding spend
spend_fits n c active fits = ground (arith, active, fits)

written-IsExact :
    (h : Host) (l : Ledger) (plan : Plan)
    → IsExact l
    → IsPlanned h l plan
    → IsExact (written l plan)
unfolding written billed uses_of
written-IsExact h l plan exact p = record {
  within = written_within l plan exact.within;
  spent = λ id c there. spent_behind id c there;
  once = λ key. elim (Bool-cases (plan.event.idempotency_key == key)) [
    | inl same ↦
        let e : plan.event.idempotency_key ≡ key =
          (text_beq_iff plan.event.idempotency_key key).0 same in
        let none_before : uses_of key l.ad_events ≡ 0 =
          uses_of-event_with key l.ad_events
            (ap (λ k. event_with k l.ad_events) (sym e) ∙ p.fresh) in
        rw (same) (omega (arith, none_before))
    | inr differs ↦ rw (differs) (omega (arith, exact.once key))
  ];
}
  where
    spent_behind :
        (id : Text) (c : Campaign)
        → Table.get
            (Table.update l.campaigns plan.event.campaign_id (spend plan.event.billable_amount))
            id
          ≡ some c
        → (if plan.event.campaign_id == id then plan.event.billable_amount else 0)
            + billed id l.ad_events
          ≡ c.spent_amount
    spent_behind id c there = elim (Bool-cases (plan.event.campaign_id == id)) [
      | inr differs ↦
          let was : Table.get l.campaigns id ≡ some c = ground (
            arith,
            differs,
            there,
            get-update l.campaigns plan.event.campaign_id id (spend plan.event.billable_amount),
          ) in
          rw (differs) (omega (arith, exact.spent id c was))
      | inl same ↦
          let e : plan.event.campaign_id ≡ id = (text_beq_iff plan.event.campaign_id id).0 same in
          let was : Table.get l.campaigns id ≡ some p.campaign = rw (← e) p.there in
          let now : c ≡ spend plan.event.billable_amount p.campaign = ground (
            arith,
            same,
            was,
            there,
            get-update l.campaigns plan.event.campaign_id id (spend plan.event.billable_amount),
          ) in
          let more : c.spent_amount ≡ p.campaign.spent_amount + plan.event.billable_amount =
            ap (λ x. x.spent_amount) now
            ∙ spend_fits plan.event.billable_amount p.campaign p.active
                (plan_fits h l plan exact.within p) in
          rw (same) (omega (arith, exact.spent id p.campaign was, more))
    ]

record_ad-IsExact :
    (h : Host) (l : Ledger) (input : Input) (uuid : Text) (now : ℕ)
    → IsExact l
    → IsExact (after l (record_ad h l input uuid now))
unfolding record_ad post
record_ad-IsExact h l input uuid now exact = elim (Result-cases (check h l input uuid now)) [
  | inl (e, bad) ↦ rw (record_ad, bad) exact
  | inr (duplicate id, same) ↦ rw (record_ad, same) exact
  | inr (planned plan, made) ↦ elim (Bool-cases (h.accepts l (written l plan))) [
    | inl accepted ↦
        rw (record_ad, made, accepted)
          (written-IsExact h l plan exact (check-IsPlanned h l input uuid now plan made))
    | inr refused ↦ rw (record_ad, made, refused) exact
  ]
]

pub run_alone-IsExact :
    (h : Host) (l : Ledger) (calls : List (Input × Text × ℕ))
    → IsExact l
    → IsExact (run_alone h l calls)
unfolding run_alone
run_alone-IsExact h l [] exact = exact
run_alone-IsExact h l ((input, uuid, now) ∷ calls) exact =
    run_alone-IsExact h (after l (record_ad h l input uuid now)) calls
      (record_ad-IsExact h l input uuid now exact)

-- Where no other call comes between a check and its batch, the events of a campaign are billed at what
-- the campaign has spent, which is within its budget, after every history of calls that begins so.
pub billed-run_alone :
    (h : Host) (l : Ledger) (calls : List (Input × Text × ℕ)) (id : Text) (c : Campaign)
    → IsExact l
    → Table.get (run_alone h l calls).campaigns id ≡ some c
    → (billed id (run_alone h l calls).ad_events ≡ c.spent_amount)
      × (billed id (run_alone h l calls).ad_events ≤ c.total_budget)
billed-run_alone h l calls id c exact there =
    let behind = run_alone-IsExact h l calls exact in
    let spent = behind.spent id c there in
    (spent, omega (arith, spent, (behind.within id c there).0))

-- In such a history no idempotency key is billed twice.
pub uses_of-run_alone :
    (h : Host) (l : Ledger) (calls : List (Input × Text × ℕ)) (key : Text)
    → IsExact l
    → uses_of key (run_alone h l calls).ad_events ≤ 1
uses_of-run_alone h l calls key exact = (run_alone-IsExact h l calls exact).once key
