-- ===== src/Sync/Values.antt =====
-- What the cloud storage answers after a value was set.
use fabushi_backend.Prelude.{
  ℕ, suc, ◌≤◌, ◌<◌, ◌⊎◌, ◌∷◌, ◌≡◌, refl, inl, inr, Option, some, arith, [], Bool-cases, ok, text_Eq,
  pair_Eq, ◌==◌, if◌then◌else◌,
}
use fabushi_backend.Text.{Text, Locale, text_or}
use fabushi_backend.Table
use fabushi_backend.Table.{get-upsert}
use fabushi_backend.Sync.Log.{Error, invalid_cloud_key, cloud_key_refused}
use fabushi_backend.Sync.Names.{stored}
use fabushi_backend.Sync.Store.{Key, Store, append}
use fabushi_backend.Sync.Cloud.{cloud_key, set_cloud_value, get_cloud_value, write_cloud}
use fabushi_backend.Sync.Effects.{set_cloud_value_ok}

-- The key of a call does not depend on the error that a bad one is refused with.
cloud_key_same :
    (l : Locale) (e f : Error) (account app key : Option Text) (k : Key)
    → cloud_key l e account app key ≡ ok k
    → cloud_key l f account app key ≡ ok k
unfolding cloud_key
cloud_key_same l e f account app key k named = ground arith

get-write_cloud :
    (retention : ℕ) (st : Store) (k j : Key) (value : Text) (now : ℕ)
    → Table.get (write_cloud retention st k value now).cloud j ≡ (
        if k == j
        then some (record { value = stored value; revision = suc st.log.last; updated_at_ms = now })
        else Table.get st.cloud j)
unfolding write_cloud append
get-write_cloud retention st k j value now = get-upsert st.cloud k j _

-- A text in which every surrogate has its partner.
data IsWellFormed : Text → Type 0 where
  empty : IsWellFormed []
  unit_first :
      {c : ℕ} {s : Text} → (c < 0xd800) ⊎ (0xdfff < c) → IsWellFormed s → IsWellFormed (c ∷ s)
  pair_first :
      {c d : ℕ} {s : Text}
      → 0xd800 ≤ c
      → c ≤ 0xdbff
      → 0xdc00 ≤ d
      → d ≤ 0xdfff
      → IsWellFormed s
      → IsWellFormed (c ∷ d ∷ s)

stored-unit :
    (c : ℕ) (s : Text) → (c < 0xd800) ⊎ (0xdfff < c) → stored s ≡ s → stored (c ∷ s) ≡ c ∷ s
unfolding stored
stored-unit c [] plain same = ground arith
stored-unit c (d ∷ s) plain same = ground arith

-- Such a text comes back as it was.
stored-IsWellFormed : {s : Text} → IsWellFormed s → stored s ≡ s
unfolding stored
stored-IsWellFormed empty = refl
stored-IsWellFormed (unit_first {c} {s} plain well) =
    stored-unit c s plain (stored-IsWellFormed well)
stored-IsWellFormed (pair_first p q r t well) = ground (arith, stored-IsWellFormed well)

-- For accounts that come back from SQLite as they are, a value that was set is what the same account,
-- mini app and key then get, with each surrogate that has no partner replaced by U+FFFD, and with the
-- revision that the call returned and its time; a call that names another key gets what it got before.
pub get_cloud_value-set_cloud_value :
    (l : Locale) (retention : ℕ) (st st' : Store) (account app key value : Option Text)
    (now revision : ℕ) (account' app' key' : Option Text) (k j : Key)
    → cloud_key l invalid_cloud_key account app key ≡ ok k
    → cloud_key l cloud_key_refused account' app' key' ≡ ok j
    → stored k.0 ≡ k.0
    → stored j.0 ≡ j.0
    → set_cloud_value l retention st account app key value now ≡ ok (st', revision)
    → get_cloud_value l st' account' app' key' ≡ (
        if k == j
        then ok (
            some (record {
              value = stored (text_or value []);
              revision = revision;
              updated_at_ms = now;
            }))
        else get_cloud_value l st account' app' key')
unfolding get_cloud_value
get_cloud_value-set_cloud_value l retention st st' account app key value now revision account' app'
      key' k j named named' well well' done =
    let (k', same, room, is, counted) =
      set_cloud_value_ok retention st st' l account app key value now revision done in
    let one : k' ≡ k = grind arith in
    elim (Bool-cases (k == j)) [
      | inl here ↦
          rw
            (
              named',
              is,
              one,
              get-write_cloud retention st k j (text_or value []) now,
              here,
              counted,
            )
            refl
      | inr other ↦
          rw (named', is, one, get-write_cloud retention st k j (text_or value []) now, other) refl
    ]
