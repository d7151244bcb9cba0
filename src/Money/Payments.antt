-- ===== src/Money/Payments.antt =====
-- syncPaymentRevenueEvent and syncSubscriptionFromPayment: what the platform books of a payment. The
-- revenue event and the subscription are written one after the other, not in a batch.
use fabushi_backend.Prelude.{
  ℕ, ◌-◌, false, ◌&&◌, List, [], ◌∷◌, Option, none, some, after, text_Eq, pair_Eq, ◌==◌, Result, ok,
  ◌>>=◌, if◌then◌else◌,
}
use fabushi_backend.Text.{Text, codes, has}
use fabushi_backend.Table
use fabushi_backend.Table.{Table, get-insert, get-upsert}
use fabushi_backend.Money.Amounts.{Doubles, Shares}
use fabushi_backend.Money.Ads.{or_now}
use fabushi_backend.Money.Subscriptions.{
  Error, Standing, active, cancelled, expired, refunded, Payment, Subscription, Store, Host,
  identifier, subscription_key,
}

abbrev pub provider_of : Text → Text
provider_of rail =
    if rail == codes "apple_in_app_purchase"
    then codes "apple"
    else if rail == codes "google_play_billing"
    then codes "google"
    else if rail == codes "credits"
    then codes "credits"
    else codes "web"

-- `full.provider_reference || full.payment_id`
abbrev pub reference_of : Text → Payment → Text
reference_of payment_id p = elim p.provider_reference [
  | none ↦ payment_id
  | some reference ↦ elim reference [ [] ↦ payment_id | c ∷ s ↦ c ∷ s ]
]

-- The CASE of the UPDATE: a subscription that has ended stays so.
abbrev pub renewed : Standing → Standing
renewed cancelled = cancelled
renewed expired = expired
renewed refunded = refunded
renewed standing = active

unfoldable pub renew : Text → Payment → ℕ → Option Subscription → Subscription
renew payment_id p now none = record {
  payment_id = payment_id;
  user_id = p.user_id;
  product_id = p.product_id;
  standing = active;
  period_start = some (or_now p.created_at now);
  period_end = none;
  cancels_at_end = false;
  updated_at = now;
}
renew payment_id p now (some old) = record old {
  payment_id = payment_id;
  standing = renewed old.standing;
  updated_at = now;
}

abbrev pub key_of : Text → Payment → Text
key_of payment_id p = subscription_key (provider_of p.rail) (reference_of payment_id p)

unfoldable pub sync_subscription : Store → Text → Payment → ℕ → Store
unfolding has renew subscription_key
sync_subscription st payment_id p now =
    if (p.product_kind == codes "subscription")
      && has (codes "succeeded" ∷ codes "partially_refunded" ∷ []) p.status
    then record st {
      subscriptions =
          Table.upsert st.subscriptions (key_of payment_id p)
            (renew payment_id p now (Table.get st.subscriptions (key_of payment_id p)));
    }
    else st

unfoldable pub shares_of : Doubles → Payment → Shares
shares_of num p =
    let share = num.floor_div (num.times p.amount p.platform_fee_bps) 10000 in
    record { gross_amount = p.amount; platform_amount = share; developer_amount = p.amount - share }

-- INSERT OR IGNORE
unfoldable pub book : Doubles → Store → Text → Payment → Store
unfolding shares_of
book num st payment_id p = elim (Table.get st.revenue payment_id) [
  | some shares ↦ st
  | none ↦ record st { revenue = Table.insert st.revenue payment_id (shares_of num p) }
]

abbrev pub booked_statuses : List Text
booked_statuses = codes "succeeded" ∷ codes "partially_refunded" ∷ codes "refunded" ∷ []

unfoldable pub sync_known : Host → Store → Text → ℕ → Store
unfolding has book sync_subscription
sync_known h st id now = elim (Table.get st.payments id) [
  | none ↦ st
  | some p ↦
      if has booked_statuses p.status then sync_subscription (book h.num st id p) id p now else st
]

unfoldable pub sync_payment : Host → Store → Text → ℕ → Result Error Store
unfolding identifier sync_known
sync_payment h st payment_id now = do id ← identifier (some payment_id); ok (sync_known h st id now)

unfoldable pub sync_all : Host → Store → List (Text × ℕ) → Store
unfolding sync_payment
sync_all h st [] = st
sync_all h st ((id, now) ∷ rest) = sync_all h (after st (sync_payment h st id now)) rest
