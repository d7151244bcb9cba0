-- ===== src/Artifact/Frozen.antt =====
-- No call but a scan changes the listing of a release that is closed for artifacts, and a scan
-- changes none whose artifacts have all passed.
use fabushi_backend.Prelude.{
  ℕ, ◌≡◌, refl, inl, inr, true, false, [], Option, some, arith, Bool-cases, Option-cases,
  Result-cases, text_Eq, pair_Eq, Result, ok, err,
}
use fabushi_backend.Code.{Code}
use fabushi_backend.Text.{Text, Locale, text_or}
use fabushi_backend.Table
use fabushi_backend.Table.{Table}
use fabushi_backend.Identity.{
  ReleaseKey, RawKey, key_Eq, key_beq, key_beq_iff, artifact_release_key,
}
use fabushi_backend.Identity.Laws.{raw_of, IsNormal}
use fabushi_backend.Publisher
use fabushi_backend.Release.Rows as Releases
use fabushi_backend.Artifact.Rows.{Artifact, Store, is_passed, is_pending_scan, rows_of, add_audit}
use fabushi_backend.Artifact.Names.{Platform, artifact_id}
use fabushi_backend.Artifact.Bindings.{
  External, open_release, bind_url, bind_external, register_external, register_external_for_review,
  attach_url,
}
use fabushi_backend.Artifact.Scans.{ScanReport, record_scan, all_passed}
use fabushi_backend.Artifact.Uploads.{
  Upload, Checked, write_cas, check_upload, upload_again, upload_row, upload_new, upload_checked,
  upload, settle,
}
use fabushi_backend.Artifact.Listing.{rows_of-insert_ne, rows_of-update_ne, passed_of_all_passed}
use fabushi_backend.Artifact.Effects.{
  is_open_at, Keeps, artifact_key-IsNormal, open_release_open, bind_url_open, bind_url-Keeps,
  bind_external_open, bind_external-Keeps,
}

-- The listings of releases that are not there, or reviewed, are as they were.
abbrev pub Guarded : {D : Type 0} → Releases.Store D → Store → Store → Type 0
Guarded releases st st' =
    (j : ReleaseKey)
    → is_open_at releases j ≡ false
    → rows_of st'.artifacts j ≡ rows_of st.artifacts j

module _ {D : Type 0} (releases : Releases.Store D) (st st' : Store) (key : ReleaseKey) where
  guarded : is_open_at releases key ≡ true → Keeps key st st' → Guarded releases st st'
  guarded open' keeps j closed = elim (Bool-cases (key_beq key j)) [
    | inl same ↦ absurd (ground (arith, key_beq_iff key j))
    | inr other ↦ keeps j other
  ]

module _ (l : Locale) (p : Platform) {D : Type 0} (releases : Releases.Store D) (st : Store)
    {st' : Store} where
  bind_url-Guarded :
      (key : ReleaseKey) (id url actor : Text) (now : ℕ)
      → IsNormal key
      → bind_url l p releases st key id url actor now ≡ ok st'
      → Guarded releases st st'
  bind_url-Guarded key id url actor now n h =
      guarded releases st st' key (bind_url_open l p releases st key n id url actor now h)
        (bind_url-Keeps l p releases st key n id url actor now h)

  bind_external-Guarded :
      (key : ReleaseKey) (e : External) (actor : Text) (now : ℕ)
      → IsNormal key
      → bind_external l p releases st key e actor now ≡ ok st'
      → Guarded releases st st'
  bind_external-Guarded key e actor now n h =
      guarded releases st st' key (bind_external_open l p releases st key n e actor now h)
        (bind_external-Keeps l p releases st key n e actor now h)

  pub register_external-Guarded :
      (publishers : Publisher.Store) (actor : Option Text) (raw : RawKey) (e : External) (now : ℕ)
      → register_external l p releases st publishers actor raw e now ≡ ok st'
      → Guarded releases st st'
  unfolding register_external
  register_external-Guarded publishers actor raw e now h =
      elim (Result-cases (artifact_release_key l raw)) [
        | inl (c, q) ↦ absurd (ground arith)
        | inr (key, q) ↦ λ j closed. grind (
          arith,
          λ (a : Text) (k : bind_external l p releases st key e a now ≡ ok st').
              bind_external-Guarded key e a now (artifact_key-IsNormal l raw key q) k j closed,
        )
      ]

  pub register_external_for_review-Guarded :
      (reviewer : Option Text) (raw : RawKey) (e : External) (now : ℕ)
      → register_external_for_review l p releases st reviewer raw e now ≡ ok st'
      → Guarded releases st st'
  unfolding register_external_for_review
  register_external_for_review-Guarded reviewer raw e now h =
      elim (Result-cases (artifact_release_key l raw)) [
        | inl (c, q) ↦ absurd (ground arith)
        | inr (key, q) ↦ λ j closed. grind (
          arith,
          λ (a : Text) (k : bind_external l p releases st key e a now ≡ ok st').
              bind_external-Guarded key e a now (artifact_key-IsNormal l raw key q) k j closed,
        )
      ]

  pub attach_url-Guarded :
      (publishers : Publisher.Store) (actor : Option Text) (raw : RawKey) (id url : Option Text)
      (now : ℕ)
      → attach_url l p releases st publishers actor raw id url now ≡ ok st'
      → Guarded releases st st'
  unfolding attach_url
  attach_url-Guarded publishers actor raw id url now h =
      elim (Result-cases (artifact_release_key l raw)) [
        | inl (c, q) ↦ absurd (ground arith)
        | inr (key, q) ↦ λ j closed. grind (
          arith,
          λ (i u : Text) (k : bind_url l p releases st key i u (text_or actor []) now ≡ ok st').
              bind_url-Guarded key i u (text_or actor []) now (artifact_key-IsNormal l raw key q) k
                j closed,
        )
      ]

  upload_again-Guarded :
      (publishers : Publisher.Store) (actor : Option Text) (c : Checked) (existing : Artifact)
      (now : ℕ)
      → upload_again l p releases st publishers actor c existing now ≡ ok st'
      → Guarded releases st st'
  unfolding upload_again
  upload_again-Guarded publishers actor c existing now h j closed = ground (
    arith,
    λ (q : attach_url l p releases st publishers actor (raw_of c.key) (some c.id)
            (some c.mirror_url) now
          ≡ ok st').
        attach_url-Guarded publishers actor (raw_of c.key) (some c.id) (some c.mirror_url) now q j
          closed,
  )

module _ (l : Locale) (st : Store) {st' : Store} (reviewer : Option Text) (raw : RawKey)
    (r : ScanReport) (now : ℕ) (h : record_scan l st reviewer raw r now ≡ ok st') where
  scan-Keeps : (key : ReleaseKey) → artifact_release_key l raw ≡ ok key → Keeps key st st'
  unfolding record_scan add_audit
  scan-Keeps key q j ne = grind (arith, rows_of-update_ne)

  scan_pending :
      (key : ReleaseKey)
      → artifact_release_key l raw ≡ ok key
      → ¬ (all_passed (rows_of st.artifacts key) ≡ true)
  unfolding record_scan is_pending_scan is_passed
  scan_pending key q passed = elim (Result-cases (artifact_id l r.artifact_id)) [
    | inl (e, qi) ↦ absurd (ground arith)
    | inr (id, qi) ↦ elim (Option-cases (Table.get st.artifacts (key, id))) [
      | inl absent ↦ absurd (ground arith)
      | inr (row, there) ↦
          absurd (ground (arith, passed_of_all_passed st.artifacts key id row passed there))
    ]
  ]

  pub record_scan-Guarded :
      (j : ReleaseKey)
      → all_passed (rows_of st.artifacts j) ≡ true
      → rows_of st'.artifacts j ≡ rows_of st.artifacts j
  unfolding record_scan
  record_scan-Guarded j passed = elim (Result-cases (artifact_release_key l raw)) [
    | inl (c, q) ↦ absurd (ground arith)
    | inr (key, q) ↦ elim (Bool-cases (key_beq key j)) [
      | inl same ↦ absurd (scan_pending key q (rw ((key_beq_iff key j).0 same) passed))
      | inr other ↦ scan-Keeps key q j other
    ]
  ]

module _ (l : Locale) (p : Platform) {D : Type 0} (releases : Releases.Store D) (st : Store) where
  upload_row-Keeps :
      (actor : Option Text) (c : Checked) (u : Upload) (now : ℕ) (stored : Store) {st' : Store}
      → upload_row l p releases st actor c u now stored ≡ ok st'
      → Keeps c.key stored st'
  unfolding upload_row add_audit
  upload_row-Keeps actor c u now stored h j ne = grind (arith, rows_of-insert_ne)

  settled :
      (P : Store → Type 0) (s : Store) (r : Result Code Store)
      → P s
      → ((s' : Store) → r ≡ ok s' → P s')
      → P (settle l p releases st s r).0
  settled P s (ok s') old new = new s' refl
  settled P s (err e) old new = old

  upload_new-Keeps :
      (actor : Option Text) (c : Checked) (u : Upload) (now : ℕ)
      → Keeps c.key st (upload_new l p releases st actor c u now).0
  unfolding upload_new
  upload_new-Keeps actor c u now j ne = elim (Result-cases (write_cas st.cas c.digest u.bytes)) [
    | inl (e, q) ↦ rw (q, upload_new)
    | inr (cas, q) ↦
        let stored = record st { cas = cas } in
        rw (q, upload_new)
          (settled (λ s. rows_of s.artifacts j ≡ rows_of st.artifacts j) stored
            (upload_row l p releases st actor c u now stored) refl
            (λ s' k. upload_row-Keeps actor c u now stored k j ne))
  ]

  check_upload_open :
      (publishers : Publisher.Store) (actor : Option Text) (raw : RawKey) (u : Upload) (c : Checked)
      → check_upload l p releases st publishers actor raw u ≡ ok c
      → is_open_at releases c.key ≡ true
  unfolding check_upload
  check_upload_open publishers actor raw u c h = elim (Result-cases (artifact_release_key l raw)) [
    | inl (e, q) ↦ absurd (ground arith)
    | inr (key, q) ↦ elim (Result-cases (open_release l p releases st key)) [
      | inl (e, k) ↦ absurd (ground arith)
      | inr (r, k) ↦
          ground
            (arith, open_release_open l p releases st key (artifact_key-IsNormal l raw key q) k)
    ]
  ]

  -- Whether the upload throws or not.
  pub upload-Guarded :
      (publishers : Publisher.Store) (actor : Option Text) (raw : RawKey) (u : Upload) (now : ℕ)
      → Guarded releases st (upload l p releases st publishers actor raw u now).0
  unfolding upload upload_checked
  upload-Guarded publishers actor raw u now j closed =
      elim (Result-cases (check_upload l p releases st publishers actor raw u)) [
        | inl (e, q) ↦ rw (q, upload)
        | inr (c, q) ↦ elim (Option-cases (Table.get st.artifacts (c.key, c.id))) [
          | inl absent ↦
              rw (q, upload)
                (rw (absent, upload_checked)
                  (guarded releases st (upload_new l p releases st actor c u now).0 c.key
                    (check_upload_open publishers actor raw u c q) (upload_new-Keeps actor c u now)
                    j closed))
          | inr (existing, there) ↦
              rw (q, upload)
                (rw (there, upload_checked)
                  (settled (λ s. rows_of s.artifacts j ≡ rows_of st.artifacts j) st
                    (upload_again l p releases st publishers actor c existing now) refl
                    (λ s' k.
                      upload_again-Guarded l p releases st publishers actor c existing now k j
                        closed)))
        ]
      ]
