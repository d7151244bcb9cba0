-- ===== src/Money/Subscriptions.antt =====
-- applySubscriptionEvent, syncPaymentRevenueEvent and syncSubscriptionFromPayment.
use fabushi_backend.Prelude.{
  ℕ, Bool, true, false, ◌&&◌, not, List, [], ◌∷◌, ◌++◌, Option, none, some, map, leb, ltb, text_Eq,
  pair_Eq, ◌==◌, Result, ok, err, throw_if, or_throw, ◌>>=◌, ◌>>◌, if◌then◌else◌,
}
use fabushi_backend.Text.{Text, codes, trim, text_or}
use fabushi_backend.Table
use fabushi_backend.Table.{Table}
use fabushi_backend.Money.Amounts.{
  Number, natural, no_integer, below_zero, max_safe, Doubles, Shares,
}
use fabushi_backend.Money.Amounts

pub data Error : Type 0 where
  invalid_identifier invalid_status event_reused payment_not_found invalid_period batch_failed :
      Error

-- SUBSCRIPTION_STATES
pub data Standing : Type 0 where
  trialing active past_due paused cancelled expired refunded : Standing

unfoldable pub standing_of : List (Text × Standing) → Text → Option Standing
standing_of [] s = none
standing_of ((name, standing) ∷ rest) s =
    let found_later = standing_of rest s in if name == s then some standing else found_later

abbrev pub subscription_states : List (Text × Standing)
subscription_states =
    (codes "trialing", trialing)
    ∷ (codes "active", active)
    ∷ (codes "past_due", past_due)
    ∷ (codes "paused", paused)
    ∷ (codes "cancelled", cancelled)
    ∷ (codes "expired", expired)
    ∷ (codes "refunded", refunded)
    ∷ []

pub record Payment : Type 0 where
  pub user_id : Text
  pub product_id : Text
  pub product_kind : Text
  pub capability : Text
  pub amount : ℕ
  pub platform_fee_bps : ℕ
  pub rail : Text
  pub provider_reference : Option Text
  pub status : Text
  pub created_at : Option ℕ

pub record Subscription : Type 0 where
  pub payment_id : Text
  pub user_id : Text
  pub product_id : Text
  pub standing : Standing
  pub period_start : Option ℕ
  pub period_end : Option ℕ
  pub cancels_at_end : Bool
  pub updated_at : ℕ

pub data Access : Type 0 where
  granted lapsed revoked : Access

pub record Entitlement : Type 0 where
  pub user_id : Text
  pub product_id : Text
  pub capability : Text
  pub access : Access
  pub expires_at : Option ℕ
  pub revoked_at : Option ℕ

-- A row of monetization_provider_events, under its provider and event.
pub record ProviderEvent : Type 0 where
  pub payload_sha256 : Text
  pub subject_id : Text
  pub occurred_at : Number
  pub processed_at : ℕ

pub record Store : Type 0 where
  pub payments : Table Text Payment
  pub events : Table (Text × Text) ProviderEvent
  pub subscriptions : Table Text Subscription
  pub entitlements : List Entitlement
  pub revenue : Table Text Shares

-- The payload is `JSON.stringify(input)`, with the properties that the code does not read; the time
-- is there where `occurredAt` is truthy, and the times and periods are as `Number` makes them.
pub record Input : Type 0 where
  pub payload : Text
  pub provider : Option Text
  pub event_id : Option Text
  pub payment_id : Option Text
  pub reference : Option Text
  pub status : Option Text
  pub period_start : Option Number
  pub period_end : Option Number
  pub cancels_at_end : Bool
  pub occurred_at : Option Number

-- The platform: lower case, `sha256Hex`, and the constraints of the schema.
pub record Host : Type 0 where
  pub num : Doubles
  pub lower : Text → Text
  pub digest : Text → Text
  pub accepts : Store → Store → Bool

unfoldable pub identifier : Option Text → Result Error Text
unfolding Amounts.identifier_pattern
identifier value = do
  throw_if (not (Amounts.identifier_pattern (trim (text_or value [])))) invalid_identifier
  ok (trim (text_or value []))

-- `value || fallback`
abbrev pub value_or : Option Text → Text → Option Text
value_or none fallback = some fallback
value_or (some []) fallback = some fallback
value_or (some (c ∷ s)) fallback = some (c ∷ s)

unfoldable pub period : Option Number → Result Error (Option ℕ)
period none = ok none
period (some (natural n)) = do
  throw_if (not (leb n max_safe && ltb 0 n)) invalid_period
  ok (some n)
period (some n) = err invalid_period

pub record Named : Type 0 where
  pub provider : Text
  pub event_id : Text
  pub payment_id : Text
  pub reference : Text
  pub standing : Standing

unfoldable pub event_names : Host → Input → Result Error Named
unfolding identifier standing_of
event_names h input = do
  provider ← identifier input.provider
  event_id ← identifier input.event_id
  payment_id ← identifier input.payment_id
  reference ← identifier (value_or input.reference payment_id)
  standing ←
      or_throw (standing_of subscription_states (trim (text_or input.status []))) invalid_status
  ok (record {
    provider = h.lower provider;
    event_id = event_id;
    payment_id = payment_id;
    reference = reference;
    standing = standing;
  })

abbrev pub access_of : Standing → Access
access_of active = granted
access_of trialing = granted
access_of past_due = granted
access_of expired = lapsed
access_of s = revoked

abbrev pub takes_away : Access → Bool
takes_away revoked = true
takes_away access = false

-- UPDATE entitlements … WHERE user_id = ? AND product_id = ? AND capability = ?
unfoldable pub grant : Payment → Access → Option ℕ → ℕ → Entitlement → Entitlement
grant p access ends now e =
    if (e.user_id == p.user_id) && (e.product_id == p.product_id) && (e.capability == p.capability)
    then record e {
      access = access;
      expires_at = ends;
      revoked_at = if takes_away access then some now else e.revoked_at;
    }
    else e

unfoldable pub subscription_key : Text → Text → Text
subscription_key provider reference = codes "subscription:" ++ provider ++ codes ":" ++ reference

-- INSERT … ON CONFLICT(subscription_id) DO UPDATE: a row that is there keeps its user and product.
abbrev pub set_standing : Subscription → Option Subscription → Subscription
set_standing new none = new
set_standing new (some old) = record new { user_id = old.user_id; product_id = old.product_id }

-- `Number(input?.occurredAt || now)`
abbrev pub occurred_or_now : Option Number → ℕ → Number
occurred_or_now none now = natural now
occurred_or_now (some n) now = n

-- The statements of the batch.
unfoldable pub applied : Host → Store → Input → Named → Payment → Option ℕ → Option ℕ → ℕ → Store
unfolding grant subscription_key
applied h st input n p starts ends now =
    let key = subscription_key n.provider n.reference in
    record st {
      events =
          Table.insert st.events (n.provider, n.event_id)
            (record {
              payload_sha256 = h.digest input.payload;
              subject_id = key;
              occurred_at = occurred_or_now input.occurred_at now;
              processed_at = now;
            });
      subscriptions = Table.upsert st.subscriptions key (
          set_standing
            (record {
              payment_id = n.payment_id;
              user_id = p.user_id;
              product_id = p.product_id;
              standing = n.standing;
              period_start = starts;
              period_end = ends;
              cancels_at_end = input.cancels_at_end;
              updated_at = now;
            })
            (Table.get st.subscriptions key));
      entitlements = map (grant p (access_of n.standing) ends now) st.entitlements;
    }

pub data Outcome : Type 0 where
  duplicate processed : Outcome

unfoldable pub apply_new : Host → Store → Input → Named → ℕ → Result Error (Store × Outcome)
unfolding period applied
apply_new h st input n now = do
  p ← or_throw (Table.get st.payments n.payment_id) payment_not_found
  throw_if (not (p.product_kind == codes "subscription")) payment_not_found
  starts ← period input.period_start
  ends ← period input.period_end
  throw_if (not (h.accepts st (applied h st input n p starts ends now))) batch_failed
  ok (applied h st input n p starts ends now, processed)

unfoldable pub apply_subscription_event : Host → Store → Input → ℕ → Result Error (Store × Outcome)
unfolding event_names apply_new
apply_subscription_event h st input now = do
  n ← event_names h input
  elim (Table.get st.events (n.provider, n.event_id)) [
    | none ↦ apply_new h st input n now
    | some row ↦ do
      throw_if (not (row.payload_sha256 == h.digest input.payload)) event_reused
      ok (st, duplicate)
  ]
