-- ===== src/Money/Rows.antt =====
-- The tables of the platform database that an advertisement event touches. Their schema is not in the
-- repository: which batches it refuses is a parameter of the operations.
use fabushi_backend.Prelude.{ℕ, List, Option, Bool}
use fabushi_backend.Text.{Text}
use fabushi_backend.Table.{Table}
use fabushi_backend.Money.Amounts.{Number, Model, AdType, Doubles, Shares}

pub record Campaign : Type 0 where
  pub advertiser_id : Text
  pub status : Text
  pub model : Model
  pub bid_amount : Number
  pub currency : Text
  pub total_budget : ℕ
  pub spent_amount : ℕ
  pub starts_at : ℕ
  pub ends_at : Option ℕ

pub record Placement : Type 0 where
  pub mini_app_id : Text
  pub developer_id : Text
  pub status : Text
  pub developer_share_bps : ℕ

-- A rule with the two numbers of its JSON; a text that is no JSON is none.
pub record SplitRule : Type 0 where
  pub rule_id : Text
  pub scope_type : Text
  pub scope_id : Text
  pub revenue_source : Text
  pub version : ℕ
  pub status : Text
  pub effective_from : ℕ
  pub effective_to : Option ℕ
  pub rule : Option (Number × Number)

pub record AdEvent : Type 0 where
  pub ad_event_id : Text
  pub idempotency_key : Text
  pub campaign_id : Text
  pub placement_id : Text
  pub event_type : AdType
  pub billable_amount : ℕ

-- The amount of a journal line: what an account is given, or what is taken from it.
pub data Amount : Type 0 where
  plus minus : ℕ → Amount

pub record Line : Type 0 where
  pub entry_id : Text
  pub account_id : Text
  pub currency : Text
  pub amount : Amount

pub record RevenueEvent : Type 0 where
  pub revenue_event_id : Text
  pub source_id : Text
  pub developer_id : Text
  pub shares : Shares
  pub split_rule_id : Option Text

pub record Ledger : Type 0 where
  pub campaigns : Table Text Campaign
  pub placements : Table Text Placement
  pub rules : List SplitRule
  pub accounts : List Text
  pub ad_events : List AdEvent
  pub lines : List Line
  pub revenue : List RevenueEvent

-- What the service takes of its platform: the numbers, upper case, and the constraints of the schema.
pub record Host : Type 0 where
  pub num : Doubles
  pub upper : Text → Text
  pub accepts : Ledger → Ledger → Bool

pub record Input : Type 0 where
  pub campaign_id : Option Text
  pub placement_id : Option Text
  pub idempotency_key : Option Text
  pub event_type : Option Text
  pub quantity : Option Number
  pub occurred_at : Option ℕ
