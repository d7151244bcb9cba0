-- ===== src/Money/Ads.antt =====
-- recordVerifiedAdRevenue up to its batch, `check`: what it tests and what it plans to write.
use fabushi_backend.Prelude.{
  ℕ, ◌-◌, Bool, true, ◌&&◌, not, List, [], ◌∷◌, ◌++◌, Option, none, some, length, every, leb, ltb,
  nat_beq, text_Eq, ◌==◌, Result, ok, throw_if, or_throw, ◌>>=◌, ◌>>◌, if◌then◌else◌,
}
use fabushi_backend.Text.{Text, codes, trim, text_or}
use fabushi_backend.Text.Pattern.{is_upper_letter}
use fabushi_backend.Table
use fabushi_backend.Money.Amounts.{
  Error, Number, natural, below_zero, AdType, ad_type, assert_identifier, quantity_of,
  ad_billable_amount, allocate_two_party_split, validate_two_party_split, Shares, invalid_currency,
  unsupported_event, invalid_rule, not_found, not_active, outside_window, not_billable,
  budget_exhausted, impression, click, conversion, rewarded,
}
use fabushi_backend.Money.Rows.{Campaign, Placement, SplitRule, AdEvent, Ledger, Host, Input}

unfoldable pub normalize_currency : Host → Text → Result Error Text
normalize_currency h value =
    let currency = h.upper (trim value) in
    do
      throw_if (not (nat_beq (length currency) 3 && every is_upper_letter currency))
          invalid_currency
      ok currency

abbrev pub ends_after : Option ℕ → ℕ → Bool
ends_after none now = true
ends_after (some t) now = ltb now t

unfoldable pub applies : Text → Text → Text → ℕ → SplitRule → Bool
applies scope_type scope_id source at rule =
    (rule.scope_type == scope_type)
    && (rule.scope_id == scope_id)
    && (rule.revenue_source == source)
    && (rule.status == codes "active")
    && leb rule.effective_from at
    && ends_after rule.effective_to at

-- ORDER BY version DESC LIMIT 1, of the rules that apply
unfoldable pub latest : (SplitRule → Bool) → List SplitRule → Option SplitRule
latest p [] = none
latest p (r ∷ rules) =
    let rest = latest p rules in
    if p r
    then elim rest [ none ↦ some r | some s ↦ if ltb r.version s.version then some s else some r ]
    else rest

-- A rule's identifier, and its numbers as they go into the split.
pub record Resolved : Type 0 where
  pub rule_id : Option Text
  pub platform_bps : Number
  pub developer_bps : Number

unfoldable pub resolve_split_rule : Ledger → Text → Text → Text → ℕ → Result Error (Option Resolved)
unfolding applies latest validate_two_party_split
resolve_split_rule l scope_type scope_id source at =
    elim (latest (applies scope_type scope_id source at) l.rules) [
      | none ↦ ok none
      | some r ↦ do
        numbers ← or_throw r.rule invalid_rule
        split ← validate_two_party_split numbers.0 numbers.1
        ok (
            some (record {
              rule_id = some r.rule_id;
              platform_bps = natural split.platform_bps;
              developer_bps = natural split.developer_bps;
            }))
    ]

-- `10000 - Number(placement.developer_share_bps)`
abbrev pub rest_bps : ℕ → Number
rest_bps share = if ltb 10000 share then below_zero else natural (10000 - share)

unfoldable pub resolve_revenue_split : Ledger → Text → Placement → Text → ℕ → Result Error Resolved
unfolding resolve_split_rule
resolve_revenue_split l placement_id p source at = do
  placed ← resolve_split_rule l (codes "ad_placement") placement_id source at
  elim placed [
    | some rule ↦ ok rule
    | none ↦ do
      app ← resolve_split_rule l (codes "miniapp") p.mini_app_id source at
      elim app [
        | some rule ↦ ok rule
        | none ↦ ok (record {
          rule_id = none;
          platform_bps = rest_bps p.developer_share_bps;
          developer_bps = natural p.developer_share_bps;
        })
      ]
  ]

abbrev pub source_of : AdType → Text
source_of impression = codes "ad_impression"
source_of click = codes "ad_click"
source_of conversion = codes "ad_conversion"
source_of rewarded = codes "ad_rewarded"

-- What the batch writes.
pub record Plan : Type 0 where
  pub event : AdEvent
  pub currency : Text
  pub advertiser_id : Text
  pub developer_id : Text
  pub shares : Shares
  pub rule_id : Option Text

pub data Outcome : Type 0 where
  duplicate : Text → Outcome
  planned : Plan → Outcome

unfoldable pub event_with : Text → List AdEvent → Option AdEvent
event_with key [] = none
event_with key (e ∷ es) =
    let rest = event_with key es in if e.idempotency_key == key then some e else rest

unfoldable pub in_window : Campaign → ℕ → Bool
in_window c now = leb c.starts_at now && ends_after c.ends_at now

abbrev pub or_now : Option ℕ → ℕ → ℕ
or_now none now = now
or_now (some t) now = if nat_beq t 0 then now else t

-- The tests on a campaign and a placement that are there, and the plan.
unfoldable pub check_event :
    Host → Ledger → Input → ℕ → AdEvent → Number → Campaign → Placement → Result Error Plan
unfolding in_window ad_billable_amount resolve_revenue_split allocate_two_party_split
    normalize_currency
check_event h l input now e quantity c p = do
  throw_if (not ((c.status == codes "active") && (p.status == codes "active"))) not_active
  throw_if (not (in_window c now)) outside_window
  billable ← ad_billable_amount h.num c.model c.bid_amount e.event_type quantity
  throw_if (nat_beq billable 0) not_billable
  throw_if (ltb c.total_budget (h.num.plus c.spent_amount billable)) budget_exhausted
  rule ←
      resolve_revenue_split l e.placement_id p (source_of e.event_type)
        (or_now input.occurred_at now)
  shares ← allocate_two_party_split h.num (natural billable) rule.platform_bps rule.developer_bps
  currency ← normalize_currency h c.currency
  ok (record {
    event = record e { billable_amount = billable };
    currency = currency;
    advertiser_id = c.advertiser_id;
    developer_id = p.developer_id;
    shares = shares;
    rule_id = rule.rule_id;
  })

abbrev pub quantity_or_one : Option Number → Number
quantity_or_one none = natural 1
quantity_or_one (some n) = n

-- The arguments of a call that have been checked.
pub record Named : Type 0 where
  pub campaign_id : Text
  pub placement_id : Text
  pub key : Text
  pub event : AdType
  pub count : ℕ

unfoldable pub ad_names : Input → Result Error Named
unfolding assert_identifier ad_type quantity_of
ad_names input = do
  campaign_id ← assert_identifier input.campaign_id
  placement_id ← assert_identifier input.placement_id
  key ← assert_identifier input.idempotency_key
  event ← or_throw (ad_type (trim (text_or input.event_type []))) unsupported_event
  count ← quantity_of (quantity_or_one input.quantity)
  ok (record {
    campaign_id = campaign_id;
    placement_id = placement_id;
    key = key;
    event = event;
    count = count;
  })

-- The event as far as its arguments say it; `uuid` is its random identifier.
abbrev pub event_of : Named → Text → AdEvent
event_of n uuid = record {
  ad_event_id = codes "ad:" ++ uuid;
  idempotency_key = n.key;
  campaign_id = n.campaign_id;
  placement_id = n.placement_id;
  event_type = n.event;
  billable_amount = 0;
}

unfoldable pub check_named : Host → Ledger → Input → Named → Text → ℕ → Result Error Outcome
unfolding event_with check_event
check_named h l input n uuid now = elim (event_with n.key l.ad_events) [
  | some e ↦ ok (duplicate e.ad_event_id)
  | none ↦ do
    c ← or_throw (Table.get l.campaigns n.campaign_id) not_found
    p ← or_throw (Table.get l.placements n.placement_id) not_found
    plan ← check_event h l input now (event_of n uuid) (natural n.count) c p
    ok (planned plan)
]

unfoldable pub check : Host → Ledger → Input → Text → ℕ → Result Error Outcome
unfolding ad_names check_named
check h l input uuid now = do n ← ad_names input; check_named h l input n uuid now
