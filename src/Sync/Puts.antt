-- ===== src/Sync/Puts.antt =====
-- The two branches of a put: the object is written, or there is a conflict and a copy.
use fabushi_backend.Prelude.{
  ℕ, zero, suc, ◌≡◌, refl, ap, inl, inr, ◌⊎◌, true, false, List, Option, none, some, arith,
  Bool-cases, Result-cases, ok, text_Eq, pair_Eq, pair_beq_iff, ◌==◌, ◌>>=◌,
}
use fabushi_backend.Text.{Text}
use fabushi_backend.Table
use fabushi_backend.Sync.Store.{Key, Store}
use fabushi_backend.Sync.Agents.{
  Sha256, Options, Outcome, written, conflict, Object, put_object, write_object, object_at,
  get_object, object_key, is_conflict, is_stale, open_object, new_ref, etag_of,
}
use fabushi_backend.Sync.Effects.{
  ensure_agent_same, open_object_ok, put_object_ok, Copied, copy_found, copy_made,
}
use fabushi_backend.Sync.Objects.{
  IsWhole, HasBytes, IsWhole-write_object, IsWhole-ensure_agent, absent_ref, found_bytes,
  object_at-write_object, object_at-write_object_ne, get_object_ok,
}

abbrev pub copying : Options
copying = record { base_etag = none; expect_absent = true }

module _ (h : Sha256) (retention : ℕ) where
  -- The state in which the object is looked up.
  pub opened-IsWhole :
      (st known : Store) (account agent path : Option Text) (bytes : List ℕ) (now : ℕ) (key : Key)
      → IsWhole h st
      → open_object h retention st account agent path bytes now ≡ ok (known, key)
      → IsWhole h known × (known.refs ≡ st.refs) × (known.blobs ≡ st.blobs)
  opened-IsWhole st known account agent path bytes now key v e =
      let (named, room, ensured) =
        open_object_ok h retention st known account agent path bytes now key e in
      let (cloud, refs, blobs) = ensure_agent_same retention st key.0 key.1.0 now in
      rw ensured (IsWhole-ensure_agent h retention st key.0 key.1.0 now v, refs, blobs)

  -- A copy that is not there yet is in no conflict: it is written, whatever the fuel.
  no_conflict :
      (k : Key) (st : Store)
      → Table.get st.refs k ≡ none
      → is_conflict copying (Table.get st.refs k) ≡ false
  unfolding is_conflict is_stale
  no_conflict k st absent = rw absent refl

  pub copy_value :
      (fuel : ℕ) (st : Store) (account agent path : Option Text) (bytes : List ℕ) (now : ℕ)
      → IsWhole h st
      → get_object st account agent path ≡ ok none
      → put_object h retention (suc fuel) st account agent path bytes copying now ≡ (
          open_object h retention st account agent path bytes now >>= λ o. ok (
            write_object retention o.0 o.1 bytes (h.of_bytes bytes) now,
            written o.1.1.1 (new_ref (h.of_bytes bytes) (suc o.0.log.last) now),
          ))
  unfolding put_object
  copy_value fuel st account agent path bytes now v absent =
      elim (Result-cases (open_object h retention st account agent path bytes now)) [
        | inl (code, p) ↦ ground arith
        | inr ((known, key), p) ↦
            let (named, room, ensured) =
              open_object_ok h retention st known account agent path bytes now key p in
            let (whole, refs, blobs) =
              opened-IsWhole st known account agent path bytes now key v p in
            let (k, named', gone) = get_object_ok st account agent path none absent in
            let free : Table.get known.refs key ≡ none =
              grind (arith, absent_ref h retention st k v gone) in
            grind (arith, no_conflict key known free)
      ]

  -- A copy that was made.
  pub copy_written :
      (fuel : ℕ) (st st' : Store) (account agent path : Option Text) (bytes : List ℕ) (now : ℕ)
      (out : Outcome)
      → IsWhole h st
      → get_object st account agent path ≡ ok none
      → put_object h retention fuel st account agent path bytes copying now ≡ ok (st', out)
      → (known : Store) × (k : Key) × (object_key account agent path ≡ ok k)
        × (object_at st k ≡ none)
        × IsWhole h known
        × (known.refs ≡ st.refs)
        × (known.blobs ≡ st.blobs)
        × (st' ≡ write_object retention known k bytes (h.of_bytes bytes) now)
  unfolding put_object
  copy_written zero st st' account agent path bytes now out v absent e = absurd (ground arith)
  copy_written (suc fuel) st st' account agent path bytes now out v absent e =
      elim (Result-cases (open_object h retention st account agent path bytes now)) [
        | inl (code, p) ↦
            absurd (grind (arith, copy_value fuel st account agent path bytes now v absent))
        | inr ((known, key), p) ↦
            let (named, room, ensured) =
              open_object_ok h retention st known account agent path bytes now key p in
            let (whole, refs, blobs) =
              opened-IsWhole st known account agent path bytes now key v p in
            let (k, named', gone) = get_object_ok st account agent path none absent in
            (
              known,
              key,
              named,
              grind arith,
              whole,
              refs,
              blobs,
              grind (arith, copy_value fuel st account agent path bytes now v absent),
            )
      ]

  same_object :
      (st known : Store) (k : Key) (o : Option Object)
      → known.refs ≡ st.refs
      → known.blobs ≡ st.blobs
      → object_at st k ≡ o
      → object_at known k ≡ o
  unfolding object_at
  same_object st known k o refs blobs there = rw (refs, blobs) there

  -- What becomes of the copy in a conflict: its bytes are there, and no object has changed.
  Copied-safe :
      (fuel : ℕ) (known st' : Store) (key : Key) (copy : Text) (bytes : List ℕ) (now : ℕ)
      (stored : Outcome)
      → IsWhole h known
      → Copied h retention fuel known st' key copy bytes now stored
      → ((j : Key) (x : Object) → object_at known j ≡ some x → object_at st' j ≡ some x)
        × (k : Key) × (object_key (some key.0) (some key.1.0) (some copy) ≡ ok k)
        × HasBytes h st' k bytes
  Copied-safe fuel known st' key copy bytes now stored v (copy_found x there same unchanged) =
      let (k, named, at) =
        get_object_ok known (some key.0) (some key.1.0) (some copy) (some x) there in
      rw unchanged (λ j y held. held, k, named, found_bytes h retention known k x bytes v at same)
  Copied-safe fuel known st' key copy bytes now stored v (copy_made absent made) =
      let (known', k, named, gone, whole, refs, blobs, is) =
        copy_written fuel known st' (some key.0) (some key.1.0) (some copy) bytes now stored v
          absent made in
      rw is (
        λ j x held. elim (Bool-cases (k == j)) [
          | inl same ↦ absurd (grind (arith, pair_beq_iff k j))
          | inr other ↦
              object_at-write_object_ne h retention known' k j bytes (h.of_bytes bytes) now x other
                (same_object known known' j (some x) refs blobs held)
        ],
        k,
        named,
        object_at-write_object h retention known' k bytes now whole,
      )

  pub IsWhole-put_object :
      (fuel : ℕ) (st st' : Store) (account agent path : Option Text) (bytes : List ℕ) (o : Options)
      (now : ℕ) (out : Outcome)
      → IsWhole h st
      → put_object h retention fuel st account agent path bytes o now ≡ ok (st', out)
      → IsWhole h st'
  unfolding put_object
  IsWhole-put_object zero st st' account agent path bytes o now out v e = absurd (ground arith)
  IsWhole-put_object (suc fuel) st st' account agent path bytes o now out v e =
      let (known, key, opened, done) =
        put_object_ok h retention fuel st st' account agent path bytes o now out e in
      let (kept, refs, blobs) = opened-IsWhole st known account agent path bytes now key v opened in
      elim done [
        | inl (free, is, said) ↦ rw is (IsWhole-write_object h retention known key bytes now kept)
        | inr (copy, stored, clash, copied, copy_found x there same unchanged, said) ↦
            rw unchanged kept
        | inr (copy, stored, clash, copied, copy_made absent made, said) ↦
            let (known', k, named, gone, whole, refs, blobs, is) =
              copy_written fuel known st' (some key.0) (some key.1.0) (some copy) bytes now stored
                kept absent made in
            rw is (IsWhole-write_object h retention known' k bytes now whole)
      ]

  pub put_object_safe :
      (fuel : ℕ) (st st' : Store) (account agent path : Option Text) (bytes : List ℕ) (o : Options)
      (now : ℕ) (out : Outcome) (key : Key)
      → IsWhole h st
      → object_key account agent path ≡ ok key
      → put_object h retention fuel st account agent path bytes o now ≡ ok (st', out)
      → ((is_conflict o (Table.get st.refs key) ≡ false)
          × ((j : Key) (x : Object)
              → (key == j) ≡ false
              → object_at st j ≡ some x
              → object_at st' j ≡ some x)
          × HasBytes h st' key bytes)
        ⊎ ((is_conflict o (Table.get st.refs key) ≡ true)
            × ((j : Key) (x : Object) → object_at st j ≡ some x → object_at st' j ≡ some x)
            × (copy : Text) × (stored : Outcome) × (k : Key) × (out
                ≡ conflict key.1.1 copy (etag_of (Table.get st.refs key)) stored)
            × (object_key (some key.0) (some key.1.0) (some copy) ≡ ok k)
            × HasBytes h st' k bytes)
  unfolding put_object
  put_object_safe zero st st' account agent path bytes o now out key v named e =
      absurd (ground arith)
  put_object_safe (suc fuel) st st' account agent path bytes o now out key v named e =
      let (known, key', opened, done) =
        put_object_ok h retention fuel st st' account agent path bytes o now out e in
      let (named', room, ensured) =
        open_object_ok h retention st known account agent path bytes now key' opened in
      let (kept, refs, blobs) =
        opened-IsWhole st known account agent path bytes now key' v opened in
      let same : key' ≡ key = grind arith in
      let now_there : Table.get known.refs key ≡ Table.get st.refs key =
        ap (λ t. Table.get t key) refs in
      rw (← now_there, ← same)
        (elim done [
          | inl (free, is, said) ↦ inl (
            free,
            rw is (λ j x other held.
                object_at-write_object_ne h retention known key' j bytes (h.of_bytes bytes) now x
                  other (same_object st known j (some x) refs blobs held)),
            rw is (object_at-write_object h retention known key' bytes now kept),
          )
          | inr (copy, stored, clash, at, copied, said) ↦
              let (others, k, found_at, has) =
                Copied-safe fuel known st' key' copy bytes now stored kept copied in
              inr (
                clash,
                λ j x held. others j x (same_object st known j (some x) refs blobs held),
                copy,
                stored,
                k,
                said,
                found_at,
                has,
              )
        ])
