-- ===== src/Money/Replays.antt =====
-- The events of a provider that come again.
use fabushi_backend.Prelude.{
  ℕ, ◌≡◌, ap, ◌∙◌, inl, inr, arith, true, some, text_Eq, pair_Eq, ◌==◌, pair_beq_iff, ok, err,
  if◌then◌else◌, Result-cases, Option-cases,
}
use fabushi_backend.Text.{Text}
use fabushi_backend.Table
use fabushi_backend.Table.{Table, get-insert, get-upsert}
use fabushi_backend.Money.Subscriptions.{
  Store, Input, Host, duplicate, processed, apply_subscription_event, apply_new, applied,
  event_names, Named, event_reused, period, ProviderEvent, subscription_key, occurred_or_now,
}

abbrev row_of : Host → Input → Named → ℕ → ProviderEvent
row_of h input n now = record {
  payload_sha256 = h.digest input.payload;
  subject_id = subscription_key n.provider n.reference;
  occurred_at = occurred_or_now input.occurred_at now;
  processed_at = now;
}

-- What a new event leaves behind.
new_event :
    (h : Host) (st st' : Store) (input : Input) (n : Named) (now : ℕ)
    → apply_new h st input n now ≡ ok (st', processed)
    → st'.events ≡ Table.insert st.events (n.provider, n.event_id) (row_of h input n now)
unfolding apply_new applied
new_event h st st' input n now done = elim (Option-cases (Table.get st.payments n.payment_id)) [
  | inl missing ↦ absurd (ground arith)
  | inr (p, there) ↦ elim (Result-cases (period input.period_start)) [
    | inl (e, bad) ↦ absurd (ground arith)
    | inr (starts, good) ↦ elim (Result-cases (period input.period_end)) [
      | inl (e, bad) ↦ absurd (ground arith)
      | inr (ends, fine) ↦
          let same : st' ≡ applied h st input n p starts ends now = ground arith in
          ap (λ x. x.events) same
    ]
  ]
]

-- An event of a provider that has been processed is known when it comes again: with a payload
-- of the same digest it is a duplicate that changes nothing, and otherwise it is refused.
pub apply_subscription_event-again :
    (h : Host) (st st' : Store) (input again : Input) (now now' : ℕ) (n m : Named)
    → apply_subscription_event h st input now ≡ ok (st', processed)
    → event_names h input ≡ ok n
    → event_names h again ≡ ok m
    → n.provider ≡ m.provider
    → n.event_id ≡ m.event_id
    → apply_subscription_event h st' again now' ≡ (
        if h.digest input.payload == h.digest again.payload
        then ok (st', duplicate)
        else err event_reused)
unfolding apply_subscription_event
apply_subscription_event-again h st st' input again now now' n m done names names' provider event =
    let made : apply_new h st input n now ≡ ok (st', processed) =
      elim (Option-cases (Table.get st.events (n.provider, n.event_id))) [
        | inl fresh ↦ ground arith
        | inr (row, old) ↦ absurd (ground arith)
      ] in
    let written = new_event h st st' input n now made in
    let same_key : ◌==◌ {K = Text × Text} (n.provider, n.event_id) (m.provider, m.event_id) ≡ true =
      (pair_beq_iff (n.provider, n.event_id) (m.provider, m.event_id)).1 (ground arith) in
    let there : Table.get st'.events (m.provider, m.event_id) ≡ some (row_of h input n now) =
      ap (λ t. Table.get t (m.provider, m.event_id)) written
      ∙ ground (
        arith,
        same_key,
        get-insert st.events (n.provider, n.event_id) (m.provider, m.event_id)
            (row_of h input n now),
      ) in
    ground (arith, names', there)
