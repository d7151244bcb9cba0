-- ===== src/Tests/Billing.antt =====
-- A payment of a subscription that was cancelled, and the events of its provider.
use fabushi_backend.Prelude.{
  ◌≡◌, refl, true, false, [], ◌∷◌, none, some, text_Eq, text_beq, ◌==◌, ok, err, if◌then◌else◌,
}
use fabushi_backend.Text.{codes, trim, text_or}
use fabushi_backend.Table
use fabushi_backend.Money.Amounts.{natural}
use fabushi_backend.Money.Subscriptions.{
  event_reused, cancelled, expired, Payment, Subscription, granted, Store, Input, Host, Named,
  event_names, applied, duplicate, processed, apply_subscription_event,
}
use fabushi_backend.Money.Kept.{Keeps, sync_all-Keeps}
use fabushi_backend.Money.Payments.{sync_all}
use fabushi_backend.Money.Replays.{apply_subscription_event-again}
use fabushi_backend.Tests.Advertising.{exact_doubles}

abbrev host : Host
host = record { num = exact_doubles; lower = λ s. s; digest = λ s. s; accepts = λ old new. true }

abbrev payment : Payment
payment = record {
  user_id = codes "u";
  product_id = codes "plan";
  product_kind = codes "subscription";
  capability = codes "pro";
  amount = 101;
  platform_fee_bps = 3000;
  rail = codes "web_provider";
  provider_reference = none;
  status = codes "succeeded";
  created_at = some 5;
}

abbrev cancelled_row : Subscription
cancelled_row = record {
  payment_id = codes "p1";
  user_id = codes "u";
  product_id = codes "plan";
  standing = cancelled;
  period_start = some 5;
  period_end = none;
  cancels_at_end = false;
  updated_at = 6;
}

abbrev store : Store
store = record {
  payments = (codes "p1", payment) ∷ [];
  events = [];
  subscriptions = (codes "subscription:web:p1", cancelled_row) ∷ [];
  entitlements =
      record {
        user_id = codes "u";
        product_id = codes "plan";
        capability = codes "pro";
        access = granted;
        expires_at = none;
        revoked_at = none;
      }
      ∷ [];
  revenue = [];
}

sync_all-Keeps_example : Keeps store (sync_all host store ((codes "p1", 7) ∷ (codes "p1", 8) ∷ []))
sync_all-Keeps_example = sync_all-Keeps host store ((codes "p1", 7) ∷ (codes "p1", 8) ∷ [])

abbrev event : Input
event = record {
  payload = codes "expired, at 4";
  provider = some (codes "web");
  event_id = some (codes "e1");
  payment_id = some (codes "p1");
  reference = none;
  status = some (codes "expired");
  period_start = some (natural 5);
  period_end = none;
  cancels_at_end = false;
  occurred_at = some (natural 4);
}

-- The time is all that is different.
abbrev changed : Input
changed = record event { payload = codes "expired, at 6"; occurred_at = some (natural 6) }

abbrev names : Named
names = record {
  provider = codes "web";
  event_id = codes "e1";
  payment_id = codes "p1";
  reference = codes "p1";
  standing = expired;
}

names_of_event : event_names host event ≡ ok names
unfolding event_names trim text_or text_beq
names_of_event = refl

names_of_changed : event_names host changed ≡ ok names
unfolding event_names trim text_or text_beq
names_of_changed = refl

abbrev after_event : Store
after_event = applied host store event names payment (some 5) none 9

processed_once : apply_subscription_event host store event 9 ≡ ok (after_event, processed)
unfolding apply_subscription_event trim text_or text_beq Table.get
processed_once = refl

apply_subscription_event-again_example : apply_subscription_event host after_event changed 10 ≡ (
    if host.digest event.payload == host.digest changed.payload
    then ok (after_event, duplicate)
    else err event_reused)
apply_subscription_event-again_example =
    apply_subscription_event-again host store after_event event changed 9 10 names names
      processed_once names_of_event names_of_changed refl refl
