-- ===== src/Sync/Cloud.antt =====
-- The cloud storage of mini apps: `setCloudValue`, `deleteCloudValue`, `getCloudValue`.
use fabushi_backend.Prelude.{
  ℕ, suc, Bool, ◌&&◌, not, ◌++◌, ◌∷◌, [], Option, none, some, ltb, leb, is_some, text_Eq, pair_Eq,
  Result, ok, throw_if, ◌>>=◌, ◌>>◌,
}
use fabushi_backend.Text.{Text, Locale, codes, trim, text_or}
use fabushi_backend.Json.{text, obj, end, field}
use fabushi_backend.Table
use fabushi_backend.Sync.Log.{
  Error, Entry, sync_account, invalid_cloud_key, cloud_key_refused, cloud_value_too_large,
  too_many_cloud_keys,
}
use fabushi_backend.Sync.Names.{mini_app_id, cloud_key_pattern, byte_length, stored}
use fabushi_backend.Sync.Store.{CloudValue, Key, Store, count_under, append}

abbrev pub max_cloud_keys_per_app : ℕ
max_cloud_keys_per_app = 1024

abbrev pub max_cloud_value_bytes : ℕ
max_cloud_value_bytes = 4096

-- The account, the mini app and the key that a call names.
unfoldable pub cloud_key :
    Locale → Error → Option Text → Option Text → Option Text → Result Error Key
unfolding sync_account mini_app_id cloud_key_pattern
cloud_key l refused account app key = do
  a ← sync_account account
  m ← mini_app_id l app
  throw_if (not (cloud_key_pattern (trim (text_or key [])))) refused
  ok (a, (m, trim (text_or key [])))

unfoldable pub cloud_set : Key → Text → ℕ → Entry
cloud_set (account, (app, key)) value now = record {
  account = account;
  event_type = codes "miniapp.cloud.set";
  entity_id = app ++ b':' ∷ key;
  payload = obj (
      field (codes "miniAppId") (text app)
        (field (codes "key") (text key) (field (codes "value") (text value) end)));
  now = now;
}

unfoldable pub cloud_deleted : Key → ℕ → Entry
cloud_deleted (account, (app, key)) now = record {
  account = account;
  event_type = codes "miniapp.cloud.deleted";
  entity_id = app ++ b':' ∷ key;
  payload = obj (field (codes "miniAppId") (text app) (field (codes "key") (text key) end));
  now = now;
}

-- the event, and then the row under its sequence; the payload of the event is JSON, which escapes
-- what UTF-8 has not
unfoldable pub write_cloud : ℕ → Store → Key → Text → ℕ → Store
unfolding append cloud_set stored
write_cloud retention st key value now = record (append retention st (cloud_set key value now)) {
  cloud =
      Table.upsert st.cloud key
        (record { value = stored value; revision = suc st.log.last; updated_at_ms = now });
}

-- A key that is not there yet, where the mini app has as many keys as it may.
unfoldable pub is_full : Store → Key → Bool
unfolding count_under
is_full st key =
    not (is_some (Table.get st.cloud key))
    && leb max_cloud_keys_per_app (count_under st.cloud key.0 key.1.0)

-- With the revision.
unfoldable pub set_cloud_value :
    Locale
    → ℕ
    → Store
    → Option Text
    → Option Text
    → Option Text
    → Option Text
    → ℕ
    → Result Error (Store × ℕ)
unfolding cloud_key is_full write_cloud
set_cloud_value l retention st account app key value now = do
  k ← cloud_key l invalid_cloud_key account app key
  throw_if (ltb max_cloud_value_bytes (byte_length (text_or value []))) cloud_value_too_large
  throw_if (is_full st k) too_many_cloud_keys
  ok (write_cloud retention st k (text_or value []) now, suc st.log.last)

-- With the revision, if a row was deleted.
unfoldable pub delete_cloud_value :
    Locale
    → ℕ
    → Store
    → Option Text
    → Option Text
    → Option Text
    → ℕ
    → Result Error (Store × Option ℕ)
unfolding cloud_key append cloud_deleted
delete_cloud_value l retention st account app key now = do
  k ← cloud_key l cloud_key_refused account app key
  elim (Table.get st.cloud k) [
    | none ↦ ok (st, none)
    | some previous ↦ ok (
      record (append retention st (cloud_deleted k now)) { cloud = Table.delete st.cloud k },
      some (suc st.log.last),
    )
  ]

unfoldable pub get_cloud_value :
    Locale → Store → Option Text → Option Text → Option Text → Result Error (Option CloudValue)
unfolding cloud_key
get_cloud_value l st account app key = do
  k ← cloud_key l cloud_key_refused account app key
  ok (Table.get st.cloud k)
