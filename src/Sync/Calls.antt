-- ===== src/Sync/Calls.antt =====
-- The calls of the account synchronisation that write, and the run of a history of them.
use fabushi_backend.Prelude.{ℕ, ◌≡◌, refl, List, [], ◌∷◌, Option, Result, ok, err, ◌>>=◌, after}
use fabushi_backend.Text.{Text, Locale}
use fabushi_backend.Json.{Json}
use fabushi_backend.Sync.Log.{Error, record_event}
use fabushi_backend.Sync.Store.{Store}
use fabushi_backend.Sync.Cloud.{set_cloud_value, delete_cloud_value}
use fabushi_backend.Sync.Agents.{Sha256, Options, put_object, delete_object}

pub data Call : Type 0 where
  records : Option Text → Option Text → Option Text → Json → Call
  sets : Option Text → Option Text → Option Text → Option Text → Call
  unsets : Option Text → Option Text → Option Text → Call
  puts : Option Text → Option Text → Option Text → List ℕ → Options → Call
  removes : Option Text → Option Text → Option Text → Option Text → Call

-- The store of a result that has more than the store.
abbrev pub store_of : {A : Type 0} → Result Error (Store × A) → Result Error Store
store_of r = do (st, a) ← r; ok st

pub after-store_of :
    {A : Type 0} (P : Store → Type 0) (st : Store)
    → P st
    → (r : Result Error (Store × A)) → ((st' : Store) (a : A) → r ≡ ok (st', a) → P st')
    → P (after st (store_of r))
after-store_of P st v (ok (st', a)) k = k st' a refl
after-store_of P st v (err e) k = v

-- The levels of `#putAgentObject`: the call, and the call for the copy of a conflict.
abbrev pub copy_fuel : ℕ
copy_fuel = 2

module _ (l : Locale) (h : Sha256) (retention : ℕ) where
  unfoldable pub step : Store → ℕ × Call → Store
  step st (now, records account type entity payload) = after st (do
    (log, sequence, cursor) ← record_event retention st.log account type entity payload now
    ok (record st { log = log }))
  step st (now, sets account app key value) =
      after st (store_of (set_cloud_value l retention st account app key value now))
  step st (now, unsets account app key) =
      after st (store_of (delete_cloud_value l retention st account app key now))
  step st (now, puts account agent path bytes o) =
      after st (store_of (put_object h retention copy_fuel st account agent path bytes o now))
  step st (now, removes account agent path base_etag) =
      after st (store_of (delete_object retention st account agent path base_etag now))

  unfoldable pub run : Store → List (ℕ × Call) → Store
  run st [] = st
  run st (c ∷ cs) = run (step st c) cs
