-- ===== src/Sync/Effects.antt =====
-- What a call of the cloud storage, or of the objects of an agent, that succeeds has tested and
-- written.
use fabushi_backend.Prelude.{
  ℕ, suc, ◌≡◌, ◌⊎◌, inl, inr, true, false, List, [], Option, none, some, arith, Bool-cases,
  Option-cases, Result-cases, ok, text_Eq, text_beq_iff, pair_Eq, ◌==◌,
}
use fabushi_backend.Text.{Text, Locale, text_or}
use fabushi_backend.Table
use fabushi_backend.Sync.Store.{Key, Store, append}
use fabushi_backend.Sync.Cloud.{
  set_cloud_value, delete_cloud_value, write_cloud, cloud_key, cloud_deleted,
}
use fabushi_backend.Sync.Cloud as Cloud
use fabushi_backend.Sync.Log.{invalid_cloud_key, cloud_key_refused}
use fabushi_backend.Sync.Agents.{
  Sha256, Options, Outcome, written, found, conflict, open_object, ensure_agent, put_object,
  put_copy, delete_object, object_key, write_object, is_conflict, conflict_copy_path, get_object,
  is_stale, Deletion, new_ref, etag_of, Object,
}
use fabushi_backend.Sync.Agents as Agents

module _ (retention : ℕ) (st st' : Store) where
  pub set_cloud_value_ok :
      (l : Locale) (account app key value : Option Text) (now revision : ℕ)
      → set_cloud_value l retention st account app key value now ≡ ok (st', revision)
      → (k : Key) × (cloud_key l invalid_cloud_key account app key ≡ ok k)
        × (Cloud.is_full st k ≡ false)
        × (st' ≡ write_cloud retention st k (text_or value []) now)
        × (revision ≡ suc st.log.last)
  unfolding set_cloud_value
  set_cloud_value_ok l account app key value now revision h =
      elim (Result-cases (cloud_key l invalid_cloud_key account app key)) [
        | inl (e, p) ↦ absurd (ground arith)
        | inr (k, p) ↦ (k, p, ground arith, ground arith, ground arith)
      ]

  pub delete_cloud_value_ok :
      (l : Locale) (account app key : Option Text) (now : ℕ) (revision : Option ℕ)
      → delete_cloud_value l retention st account app key now ≡ ok (st', revision)
      → (k : Key) × (st'.refs ≡ st.refs)
        × (st'.blobs ≡ st.blobs)
        × ((st'.cloud ≡ st.cloud) ⊎ (st'.cloud ≡ Table.delete st.cloud k))
  unfolding delete_cloud_value append
  delete_cloud_value_ok l account app key now revision h =
      elim (Result-cases (cloud_key l cloud_key_refused account app key)) [
        | inl (e, p) ↦ absurd (ground arith)
        | inr (k, p) ↦ elim (Option-cases (Table.get st.cloud k)) [
          | inl absent ↦ (k, ground arith, ground arith, inl (ground arith))
          | inr (row, there) ↦ (k, ground arith, ground arith, inr (ground arith))
        ]
      ]

  pub delete_object_ok :
      (account agent path base_etag : Option Text) (now : ℕ) (d : Deletion)
      → delete_object retention st account agent path base_etag now ≡ ok (st', d)
      → (k : Key) × (st'.cloud ≡ st.cloud)
        × (st'.blobs ≡ st.blobs)
        × ((st'.refs ≡ st.refs) ⊎ (st'.refs ≡ Table.delete st.refs k))
  unfolding delete_object append
  delete_object_ok account agent path base_etag now d h =
      elim (Result-cases (object_key account agent path)) [
        | inl (e, p) ↦ absurd (ground arith)
        | inr (k, p) ↦ elim (Option-cases (Table.get st.refs k)) [
          | inl absent ↦ (k, ground arith, ground arith, inl (ground arith))
          | inr (row, there) ↦ elim (Bool-cases (is_stale base_etag (some row.etag))) [
            | inl stale ↦ (k, ground arith, ground arith, inl (ground arith))
            | inr fresh ↦ (k, ground arith, ground arith, inr (ground arith))
          ]
        ]
      ]

pub ensure_agent_same :
    (retention : ℕ) (st : Store) (account id : Text) (now : ℕ)
    → let known = ensure_agent retention st account id now in
      (known.cloud ≡ st.cloud) × (known.refs ≡ st.refs) × (known.blobs ≡ st.blobs)
unfolding ensure_agent append
ensure_agent_same retention st account id now =
    elim (Option-cases (Table.get st.agents (account, id))) [
      | inl absent ↦ (ground arith, ground arith, ground arith)
      | inr (agent, there) ↦ (ground arith, ground arith, ground arith)
    ]

module _ (h : Sha256) (retention : ℕ) (st known : Store) where
  pub open_object_ok :
      (account agent path : Option Text) (bytes : List ℕ) (now : ℕ) (key : Key)
      → open_object h retention st account agent path bytes now ≡ ok (known, key)
      → (object_key account agent path ≡ ok key)
        × (Agents.is_full known key ≡ false)
        × (known ≡ ensure_agent retention st key.0 key.1.0 now)
  unfolding open_object
  open_object_ok account agent path bytes now key opened =
      elim (Result-cases (object_key account agent path)) [
        | inl (e, p) ↦ absurd (ground arith)
        | inr (k, p) ↦ (ground arith, ground arith, ground arith)
      ]

-- A call that found a conflict: the path of the copy, and what became of it.
pub data Copied (h : Sha256) (retention fuel : ℕ) (known st' : Store) (key : Key) (copy : Text)
    (bytes : List ℕ) (now : ℕ) (stored : Outcome) : Type 0 where
  copy_found :
      (x : Object)
      → get_object known (some key.0) (some key.1.0) (some copy) ≡ ok (some x)
      → x.blob.sha256 ≡ h.of_bytes bytes
      → st' ≡ known
      → Copied h retention fuel known st' key copy bytes now stored
  copy_made :
      get_object known (some key.0) (some key.1.0) (some copy) ≡ ok none
      → put_object h retention fuel known
          (some key.0)
          (some key.1.0)
          (some copy)
          bytes
          (record { base_etag = none; expect_absent = true })
          now
        ≡ ok (st', stored)
      → Copied h retention fuel known st' key copy bytes now stored

module _ (h : Sha256) (retention fuel : ℕ) (st st' : Store) where
  -- What a put that succeeds has done: it wrote, where there was no conflict, or it saw to the copy.
  pub put_object_ok :
      (account agent path : Option Text) (bytes : List ℕ) (o : Options) (now : ℕ) (out : Outcome)
      → put_object h retention (suc fuel) st account agent path bytes o now ≡ ok (st', out)
      → (known : Store) × (key : Key) × (open_object h retention st account agent path bytes now
          ≡ ok (known, key))
        × (((is_conflict o (Table.get known.refs key) ≡ false)
              × (st' ≡ write_object retention known key bytes (h.of_bytes bytes) now)
              × (out ≡ written key.1.1 (new_ref (h.of_bytes bytes) (suc known.log.last) now)))
            ⊎ ((copy : Text) × (stored : Outcome) × (is_conflict o (Table.get known.refs key)
                  ≡ true)
                × (conflict_copy_path h key.1.1 o (Table.get known.refs key) (h.of_bytes bytes)
                    ≡ ok copy)
                × Copied h retention fuel known st' key copy bytes now stored
                × (out ≡ conflict key.1.1 copy (etag_of (Table.get known.refs key)) stored)))
  unfolding put_object put_copy
  put_object_ok account agent path bytes o now out e =
      elim (Result-cases (open_object h retention st account agent path bytes now)) [
        | inl (code, p) ↦ absurd (ground arith)
        | inr ((known, key), p) ↦ elim (Bool-cases (is_conflict o (Table.get known.refs key))) [
          | inr free ↦ (known, key, p, inl (free, ground arith, ground arith))
          | inl clash ↦
              elim (Result-cases
                (conflict_copy_path h key.1.1 o (Table.get known.refs key) (h.of_bytes bytes))) [
                  | inl (code, q) ↦ absurd (ground arith)
                  | inr (copy, q) ↦
                      elim (Result-cases
                        (get_object known (some key.0) (some key.1.0) (some copy))) [
                          | inl (code, r) ↦ absurd (ground arith)
                          | inr (none, r) ↦
                              elim (Result-cases (
                                put_object h retention fuel known (some key.0) (some key.1.0)
                                  (some copy) bytes
                                  (record { base_etag = none; expect_absent = true }) now)) [
                                    | inl (code, made) ↦ absurd (ground arith)
                                    | inr ((after_put, stored), made) ↦ (
                                      known,
                                      key,
                                      p,
                                      inr (
                                        copy,
                                        stored,
                                        clash,
                                        q,
                                        copy_made r (ground arith),
                                        ground arith,
                                      ),
                                    )
                                  ]
                          | inr (some x, r) ↦
                              elim (Bool-cases (x.blob.sha256 == h.of_bytes bytes)) [
                                | inl same ↦ (
                                  known,
                                  key,
                                  p,
                                  inr (
                                    copy,
                                    found x,
                                    clash,
                                    q,
                                    copy_found x r ((text_beq_iff _ _).0 same) (ground arith),
                                    ground arith,
                                  ),
                                )
                                | inr differs ↦ absurd (ground arith)
                              ]
                        ]
                ]
        ]
      ]
