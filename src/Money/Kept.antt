-- ===== src/Money/Kept.antt =====
-- What a synchronisation of payments leaves as it was.
use fabushi_backend.Money.Payments.{
  renewed, renew, key_of, sync_subscription, shares_of, book, booked_statuses, sync_known,
  sync_payment, sync_all,
}
use fabushi_backend.Prelude.{
  ℕ, ◌≡◌, refl, ap, ◌∙◌, inl, inr, arith, Bool, true, false, ◌&&◌, List, [], ◌∷◌, some, after,
  text_Eq, pair_Eq, ◌==◌, text_beq_iff, Result-cases, Option-cases, Bool-cases,
}
use fabushi_backend.Text.{Text, codes, has}
use fabushi_backend.Table
use fabushi_backend.Table.{Table, get-insert, get-upsert}
use fabushi_backend.Money.Amounts.{Doubles, Shares}
use fabushi_backend.Money.Subscriptions.{
  Standing, cancelled, expired, refunded, Payment, Subscription, Store, Host, identifier,
}

abbrev pub has_ended : Standing → Bool
has_ended cancelled = true
has_ended expired = true
has_ended refunded = true
has_ended standing = false

-- What a synchronisation leaves as it was: the ended subscriptions and the booked revenue.
pub record Keeps (st st' : Store) : Type 0 where
  pub ended :
      (key : Text) (s : Subscription)
      → Table.get st.subscriptions key ≡ some s
      → has_ended s.standing ≡ true
      → (s' : Subscription) × (Table.get st'.subscriptions key ≡ some s')
        × (s'.standing ≡ s.standing)
  pub booked :
      (id : Text) (shares : Shares)
      → Table.get st.revenue id ≡ some shares
      → Table.get st'.revenue id ≡ some shares

Keeps-refl : (st : Store) → Keeps st st
Keeps-refl st = record {
  ended = λ key s there over. (s, there, refl);
  booked = λ id shares there. there;
}

Keeps-trans : (a b c : Store) → Keeps a b → Keeps b c → Keeps a c
Keeps-trans a b c v w = record {
  ended = λ key s there over.
      let (s', there', same) = v.ended key s there over in
      let (s'', there'', same') = w.ended key s' there' (ap has_ended same ∙ over) in
      (s'', there'', same' ∙ same);
  booked = λ id shares there. w.booked id shares (v.booked id shares there);
}

renewed_ended : (s : Standing) → has_ended s ≡ true → renewed s ≡ s
renewed_ended cancelled h = refl
renewed_ended expired h = refl
renewed_ended refunded h = refl
renewed_ended s h = absurd (ground arith)

upsert-Keeps :
    (st : Store) (payment_id : Text) (p : Payment) (now : ℕ) (k : Text)
    → Keeps st (record st {
      subscriptions =
          Table.upsert st.subscriptions k (renew payment_id p now (Table.get st.subscriptions k));
    })
unfolding renew
upsert-Keeps st payment_id p now k = record {
  ended = λ key s there over. elim (Bool-cases (k == key)) [
    | inr other ↦ (
      s,
      ground (
        arith,
        other,
        there,
        get-upsert st.subscriptions k key (renew payment_id p now (Table.get st.subscriptions k)),
      ),
      refl,
    )
    | inl same ↦
        let e : k ≡ key = (text_beq_iff k key).0 same in
        let was : Table.get st.subscriptions k ≡ some s = rw (e) there in
        (
          renew payment_id p now (some s),
          ground (
            arith,
            same,
            was,
            get-upsert st.subscriptions k key
                (renew payment_id p now (Table.get st.subscriptions k)),
          ),
          renewed_ended s.standing over,
        )
  ];
  booked = λ id shares there. there;
}

sync_subscription-Keeps :
    (st : Store) (payment_id : Text) (p : Payment) (now : ℕ)
    → Keeps st (sync_subscription st payment_id p now)
unfolding sync_subscription
sync_subscription-Keeps st payment_id p now =
    elim (Bool-cases (
      (p.product_kind == codes "subscription")
      && has (codes "succeeded" ∷ codes "partially_refunded" ∷ []) p.status)) [
        | inl kind ↦
            rw (sync_subscription, kind) (upsert-Keeps st payment_id p now (key_of payment_id p))
        | inr kind ↦ rw (sync_subscription, kind) (Keeps-refl st)
      ]

book-Keeps :
    (num : Doubles) (st : Store) (payment_id : Text) (p : Payment)
    → Keeps st (book num st payment_id p)
unfolding book
book-Keeps num st payment_id p = elim (Option-cases (Table.get st.revenue payment_id)) [
  | inr (shares, there) ↦ rw (book, there) (Keeps-refl st)
  | inl missing ↦
      rw (book, missing)
        record {
          ended = λ key s there over. (s, there, refl);
          booked = λ id shares there. ground (
            arith,
            missing,
            there,
            get-insert st.revenue payment_id id (shares_of num p),
            text_beq_iff payment_id id,
          );
        }
]

sync_known-Keeps : (h : Host) (st : Store) (id : Text) (now : ℕ) → Keeps st (sync_known h st id now)
unfolding sync_known
sync_known-Keeps h st id now = elim (Option-cases (Table.get st.payments id)) [
  | inl missing ↦ rw (sync_known, missing) (Keeps-refl st)
  | inr (p, there) ↦ elim (Bool-cases (has booked_statuses p.status)) [
    | inl books ↦
        rw (sync_known, there, books)
          (Keeps-trans st (book h.num st id p) (sync_subscription (book h.num st id p) id p now)
            (book-Keeps h.num st id p) (sync_subscription-Keeps (book h.num st id p) id p now))
    | inr unpaid ↦ rw (sync_known, there, unpaid) (Keeps-refl st)
  ]
]

sync_payment-Keeps :
    (h : Host) (st : Store) (payment_id : Text) (now : ℕ)
    → Keeps st (after st (sync_payment h st payment_id now))
unfolding sync_payment
sync_payment-Keeps h st payment_id now = elim (Result-cases (identifier (some payment_id))) [
  | inl (e, bad) ↦ rw (sync_payment, bad) (Keeps-refl st)
  | inr (id, good) ↦ rw (sync_payment, good) (sync_known-Keeps h st id now)
]

-- However often and in whatever order payments are synchronised, a subscription that was cancelled,
-- has expired or was refunded stays so, and what was booked of a payment stays as it was booked.
pub sync_all-Keeps :
    (h : Host) (st : Store) (syncs : List (Text × ℕ)) → Keeps st (sync_all h st syncs)
unfolding sync_all
sync_all-Keeps h st [] = Keeps-refl st
sync_all-Keeps h st ((id, now) ∷ rest) =
    Keeps-trans st (after st (sync_payment h st id now))
      (sync_all h (after st (sync_payment h st id now)) rest) (sync_payment-Keeps h st id now)
      (sync_all-Keeps h (after st (sync_payment h st id now)) rest)
