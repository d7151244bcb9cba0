-- ===== src/Sync/Histories.antt =====
-- The objects of agents after any history of calls.
use fabushi_backend.Prelude.{
  ℕ, ◌≡◌, refl, inl, inr, ◌⊎◌, false, List, [], ◌∷◌, Option, some, arith, Result-cases, ok, text_Eq,
  pair_Eq, ◌==◌,
}
use fabushi_backend.Text.{Text, Locale}
use fabushi_backend.Table
use fabushi_backend.Table.{get-delete}
use fabushi_backend.Sync.Log.{record_event}
use fabushi_backend.Sync.Store.{Key, Store, empty_store}
use fabushi_backend.Sync.Cloud.{set_cloud_value, delete_cloud_value, write_cloud}
use fabushi_backend.Sync.Agents.{
  Sha256, Options, Outcome, conflict, Object, put_object, object_at, object_key, etag_of,
  delete_object,
}
use fabushi_backend.Sync.Effects.{set_cloud_value_ok, delete_cloud_value_ok, delete_object_ok}
use fabushi_backend.Sync.Objects.{IsWhole, HasBytes, IsWhole-same}
use fabushi_backend.Sync.Contents.{
  IsDistinguished, Fits, Clashes, Holds, is_conflict-Fits, is_conflict-Clashes, put_object-Holds,
}
use fabushi_backend.Sync.Puts.{IsWhole-put_object, put_object_safe}
use fabushi_backend.Sync.Calls.{
  after-store_of, Call, records, sets, unsets, puts, removes, step, run, copy_fuel,
}

module _ (l : Locale) (h : Sha256) (retention : ℕ) where
  step-IsWhole :
      (st : Store) (now : ℕ) (c : Call) → IsWhole h st → IsWhole h (step l h retention st (now, c))
  unfolding step write_cloud
  step-IsWhole st now (records account type entity payload) v =
      elim (Result-cases (record_event retention st.log account type entity payload now)) [
        | inl (e, p) ↦ rw p v
        | inr ((log, sequence, cursor), p) ↦
            rw p (IsWhole-same h st (record st { log = log }) refl refl v)
      ]
  step-IsWhole st now (sets account app key value) v =
      after-store_of (IsWhole h) st v (set_cloud_value l retention st account app key value now)
        (λ st' revision done.
          let (k, named, room, is, counted) =
            set_cloud_value_ok retention st st' l account app key value now revision done in
          rw is (IsWhole-same h st _ refl refl v))
  step-IsWhole st now (unsets account app key) v =
      after-store_of (IsWhole h) st v (delete_cloud_value l retention st account app key now)
        (λ st' revision done.
          let (k, refs, blobs, cloud) =
            delete_cloud_value_ok retention st st' l account app key now revision done in
          IsWhole-same h st st' refs blobs v)
  step-IsWhole st now (puts account agent path bytes o) v =
      after-store_of (IsWhole h) st v
        (put_object h retention copy_fuel st account agent path bytes o now)
        (λ st' out done.
          IsWhole-put_object h retention copy_fuel st st' account agent path bytes o now out v done)
  step-IsWhole st now (removes account agent path base_etag) v =
      after-store_of (IsWhole h) st v (delete_object retention st account agent path base_etag now)
        (λ st' d done.
          let (k, cloud, blobs, refs) =
            delete_object_ok retention st st' account agent path base_etag now d done in
          elim refs [
            | inl same ↦ IsWhole-same h st st' same blobs v
            | inr less ↦ record {
              blob_of = λ a g p r there.
                  rw blobs
                    (v.blob_of a g p r (grind (arith, get-delete st.refs k (a, (g, p)), less)));
              digest_of = rw blobs v.digest_of;
            }
          ])

  pub run-IsWhole :
      (st : Store) (cs : List (ℕ × Call)) → IsWhole h st → IsWhole h (run l h retention st cs)
  unfolding run
  run-IsWhole st [] v = v
  run-IsWhole st ((now, c) ∷ cs) v =
      run-IsWhole (step l h retention st (now, c)) cs (step-IsWhole st now c v)

  pub IsWhole-empty : IsWhole h empty_store
  unfolding Table.get
  IsWhole-empty = record {
    blob_of = λ a g p r there. absurd (ground arith);
    digest_of = λ a g d b there. absurd (ground arith);
  }

  -- Behind any history of calls on an empty store, a put of bytes whose digest no other bytes in the
  -- store have loses nothing. Either nothing is there where the caller says so and the etag is the one
  -- that the caller knows, if any: then the object that it names has the bytes, and every other object
  -- is as it was. Or one of these fails: then every object is as it was, and an object of the same
  -- agent, at the path of the copy that the outcome names, has the bytes.
  pub put_lossless :
      (cs : List (ℕ × Call)) (st' : Store) (account agent path : Option Text) (bytes : List ℕ)
      (o : Options) (now : ℕ) (out : Outcome) (key : Key)
      → object_key account agent path ≡ ok key
      → let st = run l h retention empty_store cs in
        IsDistinguished h st bytes
        → put_object h retention copy_fuel st account agent path bytes o now ≡ ok (st', out)
        → (Fits o (Table.get st.refs key)
            × ((j : Key) (x : Object)
                → (key == j) ≡ false
                → object_at st j ≡ some x
                → object_at st' j ≡ some x)
            × Holds h st' key bytes)
          ⊎ (Clashes o (Table.get st.refs key)
              × ((j : Key) (x : Object) → object_at st j ≡ some x → object_at st' j ≡ some x)
              × (copy : Text) × (stored : Outcome) × (k : Key) × (out
                  ≡ conflict key.1.1 copy (etag_of (Table.get st.refs key)) stored)
              × (object_key (some key.0) (some key.1.0) (some copy) ≡ ok k)
              × Holds h st' k bytes)
  put_lossless cs st' account agent path bytes o now out key named apart e =
      let st = run l h retention empty_store cs in
      let whole = run-IsWhole empty_store cs IsWhole-empty in
      let holds = λ (k : Key) (has : HasBytes h st' k bytes).
        put_object-Holds h retention copy_fuel st st' account agent path bytes o now out k whole
          apart e has in
      let previous = Table.get st.refs key in
      elim (put_object_safe h retention copy_fuel st st' account agent path bytes o now out key
        whole named e) [
          | inl (free, others, has) ↦ inl (is_conflict-Fits o previous free, others, holds key has)
          | inr (clash, others, copy, stored, k, said, at, has) ↦
              inr (
                is_conflict-Clashes o previous clash,
                others,
                copy,
                stored,
                k,
                said,
                at,
                holds k has,
              )
        ]
