-- ===== src/Artifact/Effects.antt =====
-- What the calls of the artifact store leave of the listings: only those of releases that are
-- open for artifacts change, except by the verdict on an artifact that had none.
use fabushi_backend.Prelude.{
  ℕ, ◌≡◌, inl, inr, Bool, true, false, none, some, arith, Result-cases, text_Eq, pair_Eq, ok,
}
use fabushi_backend.Code.{
  invalid_release_identity, invalid_release_version, invalid_artifact_identity,
  invalid_artifact_version,
}
use fabushi_backend.Text.{Text, Locale}
use fabushi_backend.Table
use fabushi_backend.Table.{Table}
use fabushi_backend.Identity.{
  ReleaseKey, RawKey, key_Eq, key_beq, release_key, artifact_release_key,
}
use fabushi_backend.Identity.Laws.{raw_of, IsNormal, normalized_key-IsNormal, normalized_key_again}
use fabushi_backend.Release.Rows as Releases
use fabushi_backend.Release.Rows.{Release, is_draft, is_pending}
use fabushi_backend.Release.Drafts.{get_release}
use fabushi_backend.Artifact.Rows.{Store, rows_of, add_audit, set_url}
use fabushi_backend.Artifact.Names.{Platform}
use fabushi_backend.Artifact.Bindings.{
  External, is_open, open_release, bind_url, bind_checked, bind_external,
}
use fabushi_backend.Artifact.Listing.{rows_of-insert_ne, rows_of-update_ne}

-- The release is there and not reviewed.
abbrev pub is_open_at : {D : Type 0} → Releases.Store D → ReleaseKey → Bool
is_open_at releases key = elim (Table.get releases.releases key) [
  | none ↦ false
  | some r ↦ is_open r
]

-- The listings of all other releases are as they were.
abbrev pub Keeps : ReleaseKey → Store → Store → Type 0
Keeps key st st' =
    (j : ReleaseKey) → key_beq key j ≡ false → rows_of st'.artifacts j ≡ rows_of st.artifacts j

module _ (l : Locale) {D : Type 0} (releases : Releases.Store D) where
  get_release_again :
      (key : ReleaseKey)
      → IsNormal key
      → get_release l releases (raw_of key) ≡ ok (Table.get releases.releases key)
  unfolding get_release release_key
  get_release_again key n =
      rw (normalized_key_again l invalid_release_identity invalid_release_version key n)

pub artifact_key-IsNormal :
    (l : Locale) (raw : RawKey) (key : ReleaseKey)
    → artifact_release_key l raw ≡ ok key
    → IsNormal key
unfolding artifact_release_key
artifact_key-IsNormal l raw key h =
    normalized_key-IsNormal l invalid_artifact_identity invalid_artifact_version raw key h

module _ (l : Locale) (p : Platform) {D : Type 0} (releases : Releases.Store D) (st : Store) where
  module _ (key : ReleaseKey) (n : IsNormal key) where
    pub open_release_open :
        {r : Release D} → open_release l p releases st key ≡ ok r → is_open_at releases key ≡ true
    unfolding open_release
    open_release_open h = ground (arith, get_release_again l releases key n)

module _ (l : Locale) (p : Platform) {D : Type 0} (releases : Releases.Store D) (st : Store)
    {st' : Store} where
  module _ (key : ReleaseKey) (n : IsNormal key) where
    pub bind_url_open :
        (id url actor : Text) (now : ℕ)
        → bind_url l p releases st key id url actor now ≡ ok st'
        → is_open_at releases key ≡ true
    unfolding bind_url
    bind_url_open id url actor now h = ground (arith, get_release_again l releases key n)

    pub bind_url-Keeps :
        (id url actor : Text) (now : ℕ)
        → bind_url l p releases st key id url actor now ≡ ok st'
        → Keeps key st st'
    unfolding bind_url add_audit
    bind_url-Keeps id url actor now h j e =
        ground (arith, rows_of-update_ne st.artifacts key j id (set_url url) e)

    pub bind_checked-Keeps :
        (id digest : Text) (size : ℕ) (url : Text) (e : External) (actor : Text) (now : ℕ)
        → bind_checked l p releases st key id digest size url e actor now ≡ ok st'
        → Keeps key st st'
    unfolding bind_checked add_audit
    bind_checked-Keeps id digest size url e actor now h j ne = grind (
      arith,
      rows_of-insert_ne,
      λ (q : bind_url l p releases st key id url actor now ≡ ok st').
          bind_url-Keeps id url actor now q j ne,
    )

    pub bind_external_open :
        (e : External) (actor : Text) (now : ℕ)
        → bind_external l p releases st key e actor now ≡ ok st'
        → is_open_at releases key ≡ true
    unfolding bind_external
    bind_external_open e actor now h = elim (Result-cases (open_release l p releases st key)) [
      | inl (e, q) ↦ absurd (ground arith)
      | inr (r, q) ↦ open_release_open l p releases st key n q
    ]

    pub bind_external-Keeps :
        (e : External) (actor : Text) (now : ℕ)
        → bind_external l p releases st key e actor now ≡ ok st'
        → Keeps key st st'
    unfolding bind_external
    bind_external-Keeps e actor now h j ne = grind (arith, bind_checked-Keeps)
