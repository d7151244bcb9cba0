-- ===== src/Sync/Contents.antt =====
-- The bytes that the objects of agents have behind a put.
use fabushi_backend.Prelude.{
  ℕ, zero, suc, ◌≡◌, ◌≢◌, refl, sym, ◌∙◌, ap, inl, inr, ◌⊎◌, ◌++◌, true, false, List, Option, none,
  some, arith, Bool-cases, Option-cases, ok, text_Eq, pair_Eq, text_beq_iff,
}
use mathlib.Core.Path.{subst}
use fabushi_backend.Text.{Text, codes}
use fabushi_backend.Table
use fabushi_backend.Sync.Store.{Key, Store, Blob, Ref}
use fabushi_backend.Sync.Agents.{
  Sha256, Options, Outcome, Object, put_object, write_object, object_at, is_conflict, is_stale,
  etag_of,
}
use fabushi_backend.Sync.Effects.{put_object_ok, copy_found, copy_made}
use fabushi_backend.Sync.Objects.{IsWhole, HasBytes, insert_blob_new, ref_there}
use fabushi_backend.Sync.Puts.{copy_written, opened-IsWhole}

-- The bytes have the digest of none that the store keeps, but of their own.
abbrev pub IsDistinguished : Sha256 → Store → List ℕ → Type 0
IsDistinguished h st bytes =
    (k : Key) (b : Blob)
    → Table.get st.blobs k ≡ some b
    → h.of_bytes b.bytes ≡ h.of_bytes bytes
    → b.bytes ≡ bytes

-- The object under the key has these bytes, and the etag that says so.
abbrev pub Holds : Sha256 → Store → Key → List ℕ → Type 0
Holds h st k bytes =
    (x : Object) × (object_at st k ≡ some x)
    × (x.blob.bytes ≡ bytes)
    × (x.ref.etag ≡ codes "sha256:" ++ h.of_bytes bytes)

-- Nothing is there where nothing may be, and the etag is the one that the caller knows.
abbrev pub Fits : Options → Option Ref → Type 0
Fits o previous =
    (o.expect_absent ≡ true → previous ≡ none)
    × ((e : Text) → o.base_etag ≡ some e → etag_of previous ≡ some e)

-- Something is there where nothing may be, or the etag is another than the one the caller knows.
abbrev pub Clashes : Options → Option Ref → Type 0
Clashes o previous =
    ((o.expect_absent ≡ true) × (previous ≢ none))
    ⊎ ((e : Text) × (o.base_etag ≡ some e) × (etag_of previous ≢ some e))

is_stale_fits :
    (base current : Option Text)
    → is_stale base current ≡ false
    → (e : Text) → base ≡ some e
    → current ≡ some e
unfolding is_stale
is_stale_fits none current fresh e is = absurd (ground arith)
is_stale_fits (some base) none fresh e is = absurd (ground arith)
is_stale_fits (some base) (some current) fresh e is = grind (arith, text_beq_iff current base)

is_stale_clashes :
    (base current : Option Text)
    → is_stale base current ≡ true
    → (e : Text) × (base ≡ some e) × (current ≢ some e)
unfolding is_stale
is_stale_clashes none current stale = absurd (ground arith)
is_stale_clashes (some base) none stale = (base, refl, λ is. ground arith)
is_stale_clashes (some base) (some current) stale =
    (base, refl, λ is. grind (arith, text_beq_iff current base))

pub is_conflict-Fits :
    (o : Options) (previous : Option Ref) → is_conflict o previous ≡ false → Fits o previous
unfolding is_conflict
is_conflict-Fits o previous free = (
  λ absent. elim (Option-cases previous) [
    | inl gone ↦ gone
    | inr (r, there) ↦ absurd (grind arith)
  ],
  is_stale_fits o.base_etag (etag_of previous) (ground arith),
)

pub is_conflict-Clashes :
    (o : Options) (previous : Option Ref) → is_conflict o previous ≡ true → Clashes o previous
unfolding is_conflict
is_conflict-Clashes o previous clash = elim (Bool-cases (is_stale o.base_etag (etag_of previous))) [
  | inl stale ↦ inr (is_stale_clashes o.base_etag (etag_of previous) stale)
  | inr fresh ↦ inl (ground arith, λ gone. grind arith)
]

module _ (h : Sha256) (retention : ℕ) where
  -- A blob that a write leaves was there, or has the bytes that were written.
  written_blob :
      (st : Store) (k : Key) (bytes : List ℕ) (now : ℕ) (j : Key) (b : Blob)
      → Table.get (write_object retention st k bytes (h.of_bytes bytes) now).blobs j ≡ some b
      → (Table.get st.blobs j ≡ some b) ⊎ (b.bytes ≡ bytes)
  unfolding write_object
  written_blob st (a, (g, p)) bytes now j b there =
      elim (insert_blob_new st.blobs (a, (g, h.of_bytes bytes)) j _ b there) [
        | inl old ↦ inl old
        | inr (same, is) ↦ inr (ap (λ (x : Blob). x.bytes) (sym is))
      ]

  put_blob :
      (fuel : ℕ) (st st' : Store) (account agent path : Option Text) (bytes : List ℕ) (o : Options)
      (now : ℕ) (out : Outcome) (j : Key) (b : Blob)
      → IsWhole h st
      → put_object h retention fuel st account agent path bytes o now ≡ ok (st', out)
      → Table.get st'.blobs j ≡ some b
      → (Table.get st.blobs j ≡ some b) ⊎ (b.bytes ≡ bytes)
  unfolding put_object
  put_blob zero st st' account agent path bytes o now out j b v e there = absurd (ground arith)
  put_blob (suc fuel) st st' account agent path bytes o now out j b v e there =
      let (known, key, opened, done) =
        put_object_ok h retention fuel st st' account agent path bytes o now out e in
      let (kept, refs, blobs) =
        opened-IsWhole h retention st known account agent path bytes now key v opened in
      rw (← blobs) (elim done [
        | inl (free, is, said) ↦
            written_blob known key bytes now j b
              (subst (λ s. Table.get s.blobs j ≡ some b) is there)
        | inr (copy, stored, clash, copied, copy_found x held same unchanged, said) ↦
            inl (subst (λ s. Table.get s.blobs j ≡ some b) unchanged there)
        | inr (copy, stored, clash, copied, copy_made absent made, said) ↦
            let (known', k, named, gone, whole, refs', blobs', is) =
              copy_written h retention fuel known st' (some key.0) (some key.1.0) (some copy) bytes
                now stored kept absent made in
            rw (← blobs') (
              written_blob known' k bytes now j b
                (subst (λ s. Table.get s.blobs j ≡ some b) is there))
      ])

  -- What has bytes of a digest behind a put has the bytes themselves.
  pub put_object-Holds :
      (fuel : ℕ) (st st' : Store) (account agent path : Option Text) (bytes : List ℕ) (o : Options)
      (now : ℕ) (out : Outcome) (k : Key)
      → IsWhole h st
      → IsDistinguished h st bytes
      → put_object h retention fuel st account agent path bytes o now ≡ ok (st', out)
      → HasBytes h st' k bytes
      → Holds h st' k bytes
  put_object-Holds fuel st st' account agent path bytes o now out k v apart e
        (x, at, digest, etag) =
      let (r, b, held, kept, is) = ref_there h retention st' k x at in
      let has : x.blob.bytes ≡ bytes =
        elim (put_blob fuel st st' account agent path bytes o now out _ b v e kept) [
          | inl old ↦ ap (λ (y : Object). y.blob.bytes) is ∙ apart _ b old (grind arith)
          | inr new ↦ ap (λ (y : Object). y.blob.bytes) is ∙ new
        ] in
      (x, at, has, etag)
