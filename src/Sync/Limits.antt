-- ===== src/Sync/Limits.antt =====
-- The limits on the keys of a mini app and on the objects of an agent.
use fabushi_backend.Prelude.{
  ℕ, zero, suc, ◌≤◌, ◌≡◌, refl, inl, inr, false, List, [], ◌∷◌, Option, some, arith, Result-cases,
  ok, text_Eq, pair_Eq,
}
use fabushi_backend.Text.{Text, Locale, text_or}
use fabushi_backend.Sync.Log.{record_event}
use fabushi_backend.Sync.Store.{Key, Store, count_under, empty_store, append}
use fabushi_backend.Sync.Cloud.{
  max_cloud_keys_per_app, set_cloud_value, delete_cloud_value, write_cloud,
}
use fabushi_backend.Sync.Cloud as Cloud
use fabushi_backend.Sync.Agents.{
  Sha256, Options, Outcome, max_agent_objects, ensure_agent, put_object, delete_object,
  write_object,
}
use fabushi_backend.Sync.Agents as Agents
use fabushi_backend.Sync.Calls.{
  after-store_of, Call, records, sets, unsets, puts, removes, step, run, copy_fuel,
}
use fabushi_backend.Sync.Counts.{count_under-upsert, count_under-delete}
use fabushi_backend.Sync.Effects.{
  set_cloud_value_ok, ensure_agent_same, delete_cloud_value_ok, delete_object_ok, open_object_ok,
  put_object_ok, copy_found, copy_made,
}

record IsWithin (st : Store) : Type 0 where
  pub cloud : (a b : Text) → count_under st.cloud a b ≤ max_cloud_keys_per_app
  pub refs : (a b : Text) → count_under st.refs a b ≤ max_agent_objects

-- Only the two tables matter.
IsWithin-same :
    (st st' : Store) → st'.cloud ≡ st.cloud → st'.refs ≡ st.refs → IsWithin st → IsWithin st'
IsWithin-same st st' cloud refs v = record { cloud = rw cloud v.cloud; refs = rw refs v.refs }

module _ (retention : ℕ) (st : Store) where
  IsWithin-write_cloud :
      (k : Key) (value : Text) (now : ℕ)
      → IsWithin st
      → Cloud.is_full st k ≡ false
      → IsWithin (write_cloud retention st k value now)
  unfolding write_cloud append Cloud.is_full
  IsWithin-write_cloud k value now v room = record {
    cloud = count_under-upsert st.cloud k _ max_cloud_keys_per_app v.cloud room;
    refs = v.refs;
  }

  IsWithin-write_object :
      (k : Key) (bytes : List ℕ) (digest : Text) (now : ℕ)
      → IsWithin st
      → Agents.is_full st k ≡ false
      → IsWithin (write_object retention st k bytes digest now)
  unfolding write_object append Agents.is_full
  IsWithin-write_object k bytes digest now v room = record {
    cloud = v.cloud;
    refs = count_under-upsert st.refs k _ max_agent_objects v.refs room;
  }

module _ (h : Sha256) (retention : ℕ) where
  IsWithin-put_object :
      (fuel : ℕ) (st st' : Store) (account agent path : Option Text) (bytes : List ℕ) (o : Options)
      (now : ℕ) (out : Outcome)
      → IsWithin st
      → put_object h retention fuel st account agent path bytes o now ≡ ok (st', out)
      → IsWithin st'
  unfolding put_object
  IsWithin-put_object zero st st' account agent path bytes o now out v e = absurd (ground arith)
  IsWithin-put_object (suc fuel) st st' account agent path bytes o now out v e =
      let (known, key, opened, done) =
        put_object_ok h retention fuel st st' account agent path bytes o now out e in
      let (named, room, ensured) =
        open_object_ok h retention st known account agent path bytes now key opened in
      let kept : IsWithin known =
        let (cloud, refs, blobs) = ensure_agent_same retention st key.0 key.1.0 now in
        rw ensured (IsWithin-same st (ensure_agent retention st key.0 key.1.0 now) cloud refs v) in
      elim done [
        | inl (free, written, said) ↦
            rw written
              (IsWithin-write_object retention known key bytes (h.of_bytes bytes) now kept room)
        | inr (copy, stored, clash, copied, copy_found x there same unchanged, said) ↦
            rw unchanged kept
        | inr (copy, stored, clash, copied, copy_made absent made, said) ↦
            IsWithin-put_object fuel known st' (some key.0) (some key.1.0) (some copy) bytes _ now
              stored kept made
      ]

module _ (l : Locale) (h : Sha256) (retention : ℕ) where
  step-IsWithin :
      (st : Store) (now : ℕ) (c : Call) → IsWithin st → IsWithin (step l h retention st (now, c))
  unfolding step
  step-IsWithin st now (records account type entity payload) v =
      elim (Result-cases (record_event retention st.log account type entity payload now)) [
        | inl (e, p) ↦ rw p v
        | inr ((log, sequence, cursor), p) ↦
            rw p (IsWithin-same st (record st { log = log }) refl refl v)
      ]
  step-IsWithin st now (sets account app key value) v =
      after-store_of IsWithin st v (set_cloud_value l retention st account app key value now)
        (λ st' revision done.
          let (k, named, room, is, counted) =
            set_cloud_value_ok retention st st' l account app key value now revision done in
          rw is (IsWithin-write_cloud retention st k (text_or value []) now v room))
  step-IsWithin st now (unsets account app key) v =
      after-store_of IsWithin st v (delete_cloud_value l retention st account app key now)
        (λ st' revision done.
          let (k, refs, blobs, cloud) =
            delete_cloud_value_ok retention st st' l account app key now revision done in
          elim cloud [
            | inl same ↦ IsWithin-same st st' same refs v
            | inr less ↦ record {
              cloud =
                  λ a b. rw less (omega (arith, v.cloud a b, count_under-delete st.cloud k a b));
              refs = rw refs v.refs;
            }
          ])
  step-IsWithin st now (puts account agent path bytes o) v =
      after-store_of IsWithin st v
        (put_object h retention copy_fuel st account agent path bytes o now)
        (λ st' out done.
          IsWithin-put_object h retention copy_fuel st st' account agent path bytes o now out v
            done)
  step-IsWithin st now (removes account agent path base_etag) v =
      after-store_of IsWithin st v (delete_object retention st account agent path base_etag now)
        (λ st' d done.
          let (k, cloud, blobs, refs) =
            delete_object_ok retention st st' account agent path base_etag now d done in
          elim refs [
            | inl same ↦ IsWithin-same st st' cloud same v
            | inr less ↦ record {
              cloud = rw cloud v.cloud;
              refs = λ a b. rw less (omega (arith, v.refs a b, count_under-delete st.refs k a b));
            }
          ])

  run-IsWithin :
      (st : Store) (cs : List (ℕ × Call)) → IsWithin st → IsWithin (run l h retention st cs)
  unfolding run
  run-IsWithin st [] v = v
  run-IsWithin st ((now, c) ∷ cs) v =
      run-IsWithin (step l h retention st (now, c)) cs (step-IsWithin st now c v)

  -- After any history of calls on an empty store, each account has at most 1024 keys in the cloud
  -- storage of each mini app and at most 20000 objects in the store of each agent, the copies of
  -- conflicts among them.
  pub limits_kept :
      (cs : List (ℕ × Call)) (account id : Text)
      → (count_under (run l h retention empty_store cs).cloud account id ≤ max_cloud_keys_per_app)
        × (count_under (run l h retention empty_store cs).refs account id ≤ max_agent_objects)
  unfolding count_under
  limits_kept cs account id =
      let v =
        run-IsWithin empty_store cs
          (record { cloud = λ a b. omega arith; refs = λ a b. omega arith }) in
      (v.cloud account id, v.refs account id)
