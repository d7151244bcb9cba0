-- ===== src/Money/Checks.antt =====
-- What a plan has been tested for.
use native.Mathlib.Nat.{mul-le-mul_left}
use fabushi_backend.Prelude.{
  ℕ, ◌+◌, ◌-◌, ◌*◌, ◌≤◌, ◌<◌, ◌≡◌, refl, ap, ◌∙◌, inl, inr, arith, true, false, none, some, ltb,
  Result-cases, Option-cases, text_Eq, ◌==◌, text_beq_iff, Result, ok, err, ◌>>=◌,
}
use Prim.Native.Nat.{◌/◌}
use fabushi_backend.Text.{Text, codes}
use fabushi_backend.Table
use fabushi_backend.Money.Amounts.{
  Error, Number, no_integer, below_zero, natural, max_safe, Doubles, assert_minor_amount, bps,
  validate_two_party_split, Shares, allocate_two_party_split, ad_billable_amount,
}
use fabushi_backend.Money.Rows.{Campaign, Placement, AdEvent, Ledger, Host, Input}
use fabushi_backend.Money.Ads.{
  Resolved, Named, ad_names, check_named, event_of, resolve_revenue_split, source_of, Plan,
  duplicate, planned, event_with, or_now, check_event, check,
}
use fabushi_backend.Money.Batches.{written, post}

-- A gross amount is split to the last unit: the platform's share is the exact quotient by 10000,
-- rounded down, of the amount times its basis points, and the developer's share is the rest, where
-- the amount is at most a ten-thousandth of 2^53-1.
pub allocate_two_party_split-exact :
    (num : Doubles) (gross platform developer : Number) (s : Shares)
    → allocate_two_party_split num gross platform developer ≡ ok s
    → s.gross_amount * 10000 ≤ max_safe
    → (g : ℕ) × (p : ℕ) × (d : ℕ) × (gross ≡ natural g)
      × (platform ≡ natural p)
      × (developer ≡ natural d)
      × (0 < g)
      × (p + d ≡ 10000)
      × (s.platform_amount + s.developer_amount ≡ g)
      × (s.platform_amount * 10000 ≤ g * p)
      × (g * p < (s.platform_amount + 1) * 10000)
unfolding allocate_two_party_split assert_minor_amount validate_two_party_split bps
allocate_two_party_split-exact num (natural g) (natural p) (natural d) s h small =
    let same : s.gross_amount ≡ g = ground arith in
    let total : p + d ≡ 10000 = ground arith in
    let scaled : g * p ≤ g * 10000 = mul-le-mul_left g (omega (arith, total)) in
    let exact : num.times g p ≡ g * p = num.times_exact g p (omega (arith, scaled, same, small)) in
    let divided : num.floor_div (g * p) 10000 ≡ g * p / 10000 =
      num.floor_div_exact (g * p) 10000 (omega (arith, scaled, same, small)) (omega arith) in
    let share : s.platform_amount ≡ g * p / 10000 = ground (arith, exact, divided) in
    let left : s.developer_amount ≡ g - s.platform_amount = ground arith in
    let positive : 0 < g = ground arith in
    (
      g,
      p,
      d,
      refl,
      refl,
      refl,
      positive,
      total,
      omega (arith, share, left, scaled),
      omega (arith, share),
      omega (arith, share),
    )
allocate_two_party_split-exact num no_integer platform developer s h small = absurd (ground arith)
allocate_two_party_split-exact num below_zero platform developer s h small = absurd (ground arith)
allocate_two_party_split-exact num (natural g) no_integer developer s h small =
    absurd (ground arith)
allocate_two_party_split-exact num (natural g) below_zero developer s h small =
    absurd (ground arith)
allocate_two_party_split-exact num (natural g) (natural p) no_integer s h small =
    absurd (ground arith)
allocate_two_party_split-exact num (natural g) (natural p) below_zero s h small =
    absurd (ground arith)

pub gross_amount-allocate :
    (num : Doubles) (n : ℕ) (platform developer : Number) (s : Shares)
    → allocate_two_party_split num (natural n) platform developer ≡ ok s
    → s.gross_amount ≡ n
unfolding allocate_two_party_split assert_minor_amount
gross_amount-allocate num n platform developer s h =
    elim (Result-cases (validate_two_party_split platform developer)) [
      | inl (e, bad) ↦ ground arith
      | inr (split, good) ↦ ground arith
    ]

planned_event :
    (h : Host) (l : Ledger) (input : Input) (now : ℕ) (e : AdEvent) (quantity : Number)
    (c : Campaign) (p : Placement) (plan : Plan)
    → check_event h l input now e quantity c p ≡ ok plan
    → (plan.event ≡ record e { billable_amount = plan.event.billable_amount })
      × ((c.status == codes "active") ≡ true)
      × (ltb c.total_budget (h.num.plus c.spent_amount plan.event.billable_amount) ≡ false)
      × (rule : Resolved) × (allocate_two_party_split h.num
            (natural plan.event.billable_amount)
            rule.platform_bps
            rule.developer_bps
          ≡ ok plan.shares)
unfolding check_event
planned_event h l input now e quantity c p plan made =
    elim (Result-cases (ad_billable_amount h.num c.model c.bid_amount e.event_type quantity)) [
      | inl (f, bad) ↦ absurd (ground arith)
      | inr (billable, costs) ↦
          elim (Result-cases (
            resolve_revenue_split l e.placement_id p (source_of e.event_type)
              (or_now input.occurred_at now))) [
                | inl (f, bad) ↦ absurd (ground arith)
                | inr (rule, resolved) ↦
                    elim (Result-cases (
                      allocate_two_party_split h.num (natural billable) rule.platform_bps
                        rule.developer_bps)) [
                          | inl (f, bad) ↦ absurd (ground arith)
                          | inr (shares, split) ↦
                              let cost : plan.event.billable_amount ≡ billable = ground arith in
                              let same : plan.shares ≡ shares = ground arith in
                              (
                                ground arith,
                                ground arith,
                                rw (cost) (ground arith),
                                rule,
                                rw (cost, same) split,
                              )
                        ]
              ]
    ]

-- What holds of a plan and the ledger on which it was made.
pub record IsPlanned (h : Host) (l : Ledger) (plan : Plan) : Type 0 where
  pub campaign : Campaign
  pub there : Table.get l.campaigns plan.event.campaign_id ≡ some campaign
  pub active : (campaign.status == codes "active") ≡ true
  pub within :
      ltb campaign.total_budget (h.num.plus campaign.spent_amount plan.event.billable_amount)
      ≡ false
  pub rule : Resolved
  pub split :
      allocate_two_party_split h.num
        (natural plan.event.billable_amount)
        rule.platform_bps
        rule.developer_bps
      ≡ ok plan.shares
  pub fresh : event_with plan.event.idempotency_key l.ad_events ≡ none

the_plan :
    (r : Result Error Plan) (plan : Plan)
    → (r >>= λ p. ok (planned p)) ≡ ok (planned plan)
    → r ≡ ok plan
the_plan (ok p) plan h = ground arith
the_plan (err e) plan h = absurd (ground arith)

named_IsPlanned :
    (h : Host) (l : Ledger) (input : Input) (n : Named) (uuid : Text) (now : ℕ) (plan : Plan)
    → check_named h l input n uuid now ≡ ok (planned plan)
    → IsPlanned h l plan × (plan.event.idempotency_key ≡ n.key)
unfolding check_named
named_IsPlanned h l input n uuid now plan made =
    elim (Option-cases (event_with n.key l.ad_events)) [
      | inr (e, old) ↦ absurd (ground arith)
      | inl fresh ↦ elim (Option-cases (Table.get l.campaigns n.campaign_id)) [
        | inl missing ↦ absurd (ground arith)
        | inr (c, there) ↦ elim (Option-cases (Table.get l.placements n.placement_id)) [
          | inl missing ↦ absurd (ground arith)
          | inr (p, placed) ↦
              let e = event_of n uuid in
              let inner : check_event h l input now e (natural n.count) c p ≡ ok plan =
                the_plan (check_event h l input now e (natural n.count) c p) plan (ground arith) in
              let (same, active, within, rule, split) =
                planned_event h l input now e (natural n.count) c p plan inner in
              (
                record {
                  campaign = c;
                  there = ap (λ x. Table.get l.campaigns x.campaign_id) same ∙ there;
                  active = active;
                  within = within;
                  rule = rule;
                  split = split;
                  fresh = ap (λ x. event_with x.idempotency_key l.ad_events) same ∙ fresh;
                },
                ap (λ x. x.idempotency_key) same,
              )
        ]
      ]
    ]

pub check-IsPlanned :
    (h : Host) (l : Ledger) (input : Input) (uuid : Text) (now : ℕ) (plan : Plan)
    → check h l input uuid now ≡ ok (planned plan)
    → IsPlanned h l plan
unfolding check
check-IsPlanned h l input uuid now plan made = elim (Result-cases (ad_names input)) [
  | inl (e, bad) ↦ absurd (ground arith)
  | inr (n, good) ↦ (named_IsPlanned h l input n uuid now plan (ground arith)).0
]

-- Once the batch of a call is written, a call with the same arguments, at whatever time, is told that
-- it is a duplicate, and of which event.
pub check-post :
    (h : Host) (l l' : Ledger) (input : Input) (uuid uuid' : Text) (now now' : ℕ) (plan : Plan)
    → check h l input uuid now ≡ ok (planned plan)
    → post h l plan ≡ ok l'
    → check h l' input uuid' now' ≡ ok (duplicate plan.event.ad_event_id)
unfolding check check_named post written event_with
check-post h l l' input uuid uuid' now now' plan made wrote = elim (Result-cases (ad_names input)) [
  | inl (e, bad) ↦ absurd (ground arith)
  | inr (n, good) ↦
      let key : plan.event.idempotency_key ≡ n.key =
        (named_IsPlanned h l input n uuid now plan (ground arith)).1 in
      let same : (plan.event.idempotency_key == n.key) ≡ true =
        (text_beq_iff plan.event.idempotency_key n.key).1 key in
      let behind : l' ≡ written l plan = ground arith in
      let found_it : event_with n.key l'.ad_events ≡ some plan.event =
        ap (λ x. event_with n.key x.ad_events) behind ∙ ground (arith, same) in
      ground (arith, good, found_it)
]
