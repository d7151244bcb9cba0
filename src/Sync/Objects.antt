-- ===== src/Sync/Objects.antt =====
-- The invariant of the objects of agents, and the writes of a put.
use fabushi_backend.Prelude.{
  ℕ, suc, ◌≡◌, refl, sym, ap, ◌∙◌, inl, inr, ◌⊎◌, false, ◌++◌, List, Option, none, some, arith,
  Bool-cases, Option-cases, Result-cases, ok, text_Eq, pair_Eq, pair_beq_iff, ◌==◌,
}
use fabushi_backend.Text.{Text, codes}
use fabushi_backend.Table
use fabushi_backend.Table.{get-insert, get-upsert, get-delete, get-upsert_cases}
use fabushi_backend.Sync.Store.{Key, Store, Blob, Ref, append, insert_blob}
use fabushi_backend.Sync.Agents.{
  Sha256, Object, ensure_agent, write_object, object_at, object_of, get_object, object_key, new_ref,
}
use fabushi_backend.Sync.Effects.{ensure_agent_same}

-- A ref has its blob; a blob stands under the digest of its bytes, and the etag of a ref is that digest.
pub record IsWhole (h : Sha256) (st : Store) : Type 0 where
  pub blob_of :
      (a g p : Text) (r : Ref)
      → Table.get st.refs (a, (g, p)) ≡ some r
      → (b : Blob) × (Table.get st.blobs (a, (g, r.blob_id)) ≡ some b)
        × (r.etag ≡ codes "sha256:" ++ r.blob_id)
  pub digest_of :
      (a g d : Text) (b : Blob)
      → Table.get st.blobs (a, (g, d)) ≡ some b
      → (b.sha256 ≡ d) × (h.of_bytes b.bytes ≡ d)

-- The object under the key has bytes of this digest, and the etag that says so.
abbrev pub HasBytes : Sha256 → Store → Key → List ℕ → Type 0
HasBytes h st k bytes =
    (x : Object) × (object_at st k ≡ some x)
    × (h.of_bytes x.blob.bytes ≡ h.of_bytes bytes)
    × (x.ref.etag ≡ codes "sha256:" ++ h.of_bytes bytes)

pub IsWhole-same :
    (h : Sha256) (st st' : Store)
    → st'.refs ≡ st.refs
    → st'.blobs ≡ st.blobs
    → IsWhole h st
    → IsWhole h st'
IsWhole-same h st st' refs blobs v = record {
  blob_of = rw (refs, blobs) v.blob_of;
  digest_of = rw blobs v.digest_of;
}

abbrev Blobs : Type 0
Blobs = Table.Table Key Blob

insert_blob_absent :
    (t : Blobs) (k : Key) (b : Blob) → Table.get t k ≡ none → insert_blob t k b ≡ Table.insert t k b
unfolding insert_blob
insert_blob_absent t k b absent = ground arith

insert_blob_present :
    (t : Blobs) (k : Key) (b x : Blob) → Table.get t k ≡ some x → insert_blob t k b ≡ t
unfolding insert_blob
insert_blob_present t k b x present = ground arith

-- INSERT OR IGNORE changes no row that is there.
insert_blob_kept :
    (t : Blobs) (k j : Key) (b x : Blob)
    → Table.get t j ≡ some x
    → Table.get (insert_blob t k b) j ≡ some x
insert_blob_kept t k j b x there = elim (Option-cases (Table.get t k)) [
  | inl absent ↦ elim (Bool-cases (k == j)) [
    | inl same ↦ absurd (grind (arith, pair_beq_iff k j))
    | inr other ↦ rw (insert_blob_absent t k b absent, get-insert t k j b, other) there
  ]
  | inr (y, present) ↦ rw (insert_blob_present t k b y present) there
]

insert_blob_there :
    (t : Blobs) (k : Key) (b : Blob) → (x : Blob) × (Table.get (insert_blob t k b) k ≡ some x)
insert_blob_there t k b = elim (Option-cases (Table.get t k)) [
  | inl absent ↦
      (b, rw (insert_blob_absent t k b absent, get-insert t k k b, (pair_beq_iff k k).1 refl) refl)
  | inr (y, present) ↦ (y, rw (insert_blob_present t k b y present) present)
]

-- A row that is there was there, or is the new one.
pub insert_blob_new :
    (t : Blobs) (k j : Key) (b x : Blob)
    → Table.get (insert_blob t k b) j ≡ some x
    → (Table.get t j ≡ some x) ⊎ ((k ≡ j) × (b ≡ x))
insert_blob_new t k j b x there = elim (Option-cases (Table.get t k)) [
  | inl absent ↦ elim (Bool-cases (k == j)) [
    | inl same ↦ inr (
      (pair_beq_iff k j).0 same,
      grind (arith, get-insert t k j b, insert_blob_absent t k b absent),
    )
    | inr other ↦ inl (grind (arith, get-insert t k j b, insert_blob_absent t k b absent))
  ]
  | inr (y, present) ↦ inl (grind (arith, insert_blob_present t k b y present))
]

object_at_of :
    (st : Store) (k : Key) (r : Ref) (b : Blob)
    → Table.get st.refs k ≡ some r
    → Table.get st.blobs (k.0, (k.1.0, r.blob_id)) ≡ some b
    → object_at st k ≡ some (record { path = k.1.1; blob = b; ref = r })
unfolding object_at object_of
object_at_of st (a, (g, p)) r b held kept = ground arith

module _ (h : Sha256) (retention : ℕ) (st : Store) where
  pub IsWhole-write_object :
      (k : Key) (bytes : List ℕ) (now : ℕ)
      → IsWhole h st
      → IsWhole h (write_object retention st k bytes (h.of_bytes bytes) now)
  unfolding write_object append new_ref
  IsWhole-write_object (a, (g, p)) bytes now v =
      let digest = h.of_bytes bytes in
      let blob : Blob = record { sha256 = digest; bytes = bytes; created_at_ms = now } in
      record {
        blob_of = λ a' g' p' r there.
            elim (get-upsert_cases st.refs (a, (g, p)) (a', (g', p'))
              (new_ref digest (suc st.log.last) now) r there) [
                | inl (same, is) ↦
                    rw (← ap (λ k. k.0) same, ← ap (λ k. k.1.0) same, ← is)
                      (let (b, held) = insert_blob_there st.blobs (a, (g, digest)) blob in
                        (b, held, refl))
                | inr old ↦
                    let (b, held, etag) = v.blob_of a' g' p' r old in
                    (
                      b,
                      insert_blob_kept st.blobs (a, (g, digest)) (a', (g', r.blob_id)) blob b held,
                      etag,
                    )
              ];
        digest_of = λ a' g' d b there.
            elim (insert_blob_new st.blobs (a, (g, digest)) (a', (g', d)) blob b there) [
              | inl old ↦ v.digest_of a' g' d b old
              | inr (same, is) ↦ (grind arith, grind arith)
            ];
      }

  pub IsWhole-ensure_agent :
      (account id : Text) (now : ℕ)
      → IsWhole h st
      → IsWhole h (ensure_agent retention st account id now)
  IsWhole-ensure_agent account id now v =
      let (cloud, refs, blobs) = ensure_agent_same retention st account id now in
      IsWhole-same h st (ensure_agent retention st account id now) refs blobs v

  -- The object of a ref is there.
  pub object_at-ref :
      (k : Key) (r : Ref)
      → IsWhole h st
      → Table.get st.refs k ≡ some r
      → (b : Blob) × (object_at st k ≡ some (record { path = k.1.1; blob = b; ref = r }))
        × (b.sha256 ≡ r.blob_id)
        × (r.etag ≡ codes "sha256:" ++ r.blob_id)
  unfolding object_at object_of
  object_at-ref (a, (g, p)) r v there =
      let (b, held, etag) = v.blob_of a g p r there in
      (b, ground arith, (v.digest_of a g r.blob_id b held).0, etag)

  pub absent_ref : (k : Key) → IsWhole h st → object_at st k ≡ none → Table.get st.refs k ≡ none
  absent_ref k v absent = elim (Option-cases (Table.get st.refs k)) [
    | inl none_there ↦ none_there
    | inr (r, there) ↦
        let (b, held, digest, etag) = object_at-ref k r v there in absurd (ground arith)
  ]

  pub ref_there :
      (k : Key) (x : Object)
      → object_at st k ≡ some x
      → (r : Ref) × (b : Blob) × (Table.get st.refs k ≡ some r)
        × (Table.get st.blobs (k.0, (k.1.0, r.blob_id)) ≡ some b)
        × (x ≡ record { path = k.1.1; blob = b; ref = r })
  unfolding object_at object_of
  ref_there (a, (g, p)) x there = elim (Option-cases (Table.get st.refs (a, (g, p)))) [
    | inl absent ↦ absurd (ground arith)
    | inr (r, held) ↦ elim (Option-cases (Table.get st.blobs (a, (g, r.blob_id)))) [
      | inl absent ↦ absurd (ground arith)
      | inr (b, kept) ↦ (r, b, held, kept, ground arith)
    ]
  ]

  pub found_bytes :
      (k : Key) (x : Object) (bytes : List ℕ)
      → IsWhole h st
      → object_at st k ≡ some x
      → x.blob.sha256 ≡ h.of_bytes bytes
      → HasBytes h st k bytes
  found_bytes (a, (g, p)) x bytes v there same =
      let (r, b, held, kept, is) = ref_there (a, (g, p)) x there in
      let (b', held', etag) = v.blob_of a g p r held in
      let (sha, digest) = v.digest_of a g r.blob_id b kept in (x, there, grind arith, grind arith)

  -- A write leaves every other object as it was.
  pub object_at-write_object_ne :
      (k j : Key) (bytes : List ℕ) (digest : Text) (now : ℕ) (x : Object)
      → (k == j) ≡ false
      → object_at st j ≡ some x
      → object_at (write_object retention st k bytes digest now) j ≡ some x
  unfolding write_object append
  object_at-write_object_ne (a, (g, p)) (a', (g', p')) bytes digest now x other there =
      let (r, b, held, kept, is) = ref_there (a', (g', p')) x there in
      object_at_of (write_object retention st (a, (g, p)) bytes digest now) (a', (g', p')) r b
        (rw
          (
            get-upsert st.refs (a, (g, p)) (a', (g', p')) (new_ref digest (suc st.log.last) now),
            other,
          )
          held)
        (insert_blob_kept st.blobs (a, (g, digest)) (a', (g', r.blob_id)) _ b kept)
      ∙ ap some (sym is)

  -- What a write leaves under its own key.
  pub object_at-write_object :
      (k : Key) (bytes : List ℕ) (now : ℕ)
      → IsWhole h st
      → HasBytes h (write_object retention st k bytes (h.of_bytes bytes) now) k bytes
  unfolding write_object append new_ref
  object_at-write_object (a, (g, p)) bytes now v =
      let digest = h.of_bytes bytes in
      let st' = write_object retention st (a, (g, p)) bytes digest now in
      let r = new_ref digest (suc st.log.last) now in
      let (b, held) =
        insert_blob_there st.blobs (a, (g, digest))
          (record { sha256 = digest; bytes = bytes; created_at_ms = now }) in
      let whole = IsWhole-write_object (a, (g, p)) bytes now v in
      let there : Table.get st'.refs (a, (g, p)) ≡ some r =
        rw
          (
            get-upsert st.refs (a, (g, p)) (a, (g, p)) r,
            (let k : Key = (a, (g, p)) in (pair_beq_iff k k).1 refl),
          )
          refl in
      (
        record { path = p; blob = b; ref = r },
        object_at_of st' (a, (g, p)) r b there held,
        (whole.digest_of a g digest b held).1,
        refl,
      )

pub get_object_ok :
    (st : Store) (account agent path : Option Text) (o : Option Object)
    → get_object st account agent path ≡ ok o
    → (k : Key) × (object_key account agent path ≡ ok k) × (object_at st k ≡ o)
unfolding get_object
get_object_ok st account agent path o e = elim (Result-cases (object_key account agent path)) [
  | inl (code, p) ↦ absurd (ground arith)
  | inr (k, p) ↦ (k, p, ground arith)
]
