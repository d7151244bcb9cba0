-- ===== src/Release/Effects.antt =====
-- What a call of the release store that does not throw has found, and what it leaves behind.

use fabushi_backend.Prelude.{
  ℕ, ◌≡◌, ◌⊎◌, inl, inr, Result-cases, Option-cases, Bool, Option, none, some, arith, [], List, ok,
  err, if◌then◌else◌,
}
use fabushi_backend.Code.{Code, release_not_found}
use fabushi_backend.Text.{Text, text_or, Locale}
use fabushi_backend.Table
use fabushi_backend.Table.{Table}
use fabushi_backend.Identity.{ReleaseKey, RawKey, key_Eq, release_key}
use fabushi_backend.Publisher
use fabushi_backend.Release.Rows.{
  State, draft, pending_review, approved, rejected, is_draft, is_pending, is_approved, Release,
  Store, Entries, reviewer_name, review_text, new_release, import_actor, set_submitted,
  set_reviewed, set_revoked,
}
use fabushi_backend.Release.Drafts.{
  required, submit, sanitize, create_draft, import_again, import_new, import_reviewed,
}
use fabushi_backend.Release.Reviews.{
  Gate, SignRelease, artifacts_for, signature_for, review, yank, revoke,
}
use fabushi_backend.Published.{PublicArtifact, Envelope}

-- One row was there, in the given state, and was rewritten.
abbrev pub Edit :
    {D : Type 0} → Store D → Store D → State → (Release D → Release D) → ReleaseKey → Type 0
Edit {D} st st' state f key =
    (row : Release D) × (Table.get st.releases key ≡ some row)
    × (row.state ≡ state)
    × (st'.releases ≡ Table.update st.releases key f)

module _ (l : Locale) {D : Type 0} (st : Store D) where
  required_cases :
      (raw : RawKey)
      → ((e : Code) × (required l st raw ≡ err e))
        ⊎ ((key : ReleaseKey) × (row : Release D) × (release_key l raw ≡ ok key)
            × (Table.get st.releases key ≡ some row)
            × (required l st raw ≡ ok (key, row)))
  unfolding required
  required_cases raw = elim (Result-cases (release_key l raw)) [
    | inl (e, p) ↦ inl (e, rw p)
    | inr (key, p) ↦ elim (Option-cases (Table.get st.releases key)) [
      | inl q ↦ inl (release_not_found, rw p (rw q))
      | inr (row, q) ↦ inr (key, row, p, q, rw p (rw q))
    ]
  ]

module _ (l : Locale) {D : Type 0} (st : Store D) {st' : Store D} where
  pub submit_ok :
      (publishers : Publisher.Store) (actor : Option Text) (raw : RawKey) (now : ℕ)
      → submit l st publishers actor raw now ≡ ok st'
      → (key : ReleaseKey) × (release_key l raw ≡ ok key)
        × Edit st st' draft (set_submitted now) key
  unfolding submit is_draft
  submit_ok publishers actor raw now h = elim (required_cases l st raw) [
    | inl (e, p) ↦ absurd (ground arith)
    | inr (key, row, k, g, p) ↦ (key, k, (row, g, ground arith, ground arith))
  ]

  pub yank_ok :
      (publishers : Publisher.Store) (actor notes : Option Text) (raw : RawKey) (now : ℕ)
      → yank l st publishers actor notes raw now ≡ ok st'
      → (key : ReleaseKey) × (release_key l raw ≡ ok key)
        × Edit st st' approved (set_revoked (text_or actor []) (review_text notes) now) key
  unfolding yank is_approved
  yank_ok publishers actor notes raw now h = elim (required_cases l st raw) [
    | inl (e, p) ↦ absurd (ground arith)
    | inr (key, row, k, g, p) ↦ (key, k, (row, g, ground arith, ground arith))
  ]

  pub revoke_ok :
      (reviewer notes : Option Text) (raw : RawKey) (now : ℕ)
      → revoke l st reviewer notes raw now ≡ ok st'
      → (key : ReleaseKey) × (release_key l raw ≡ ok key)
        × Edit st st' approved (set_revoked (reviewer_name reviewer) (review_text notes) now) key
  unfolding revoke is_approved
  revoke_ok reviewer notes raw now h = elim (required_cases l st raw) [
    | inl (e, p) ↦ absurd (ground arith)
    | inr (key, row, k, g, p) ↦ (key, k, (row, g, ground arith, ground arith))
  ]

module _ (l : Locale) {D S : Type 0} (st : Store D) (unsigned : S) {st' : Store D}
    {signed : S} where
  pub review_ok :
      (gate : Option Gate) (sign : Option (SignRelease D S)) (approve : Bool)
      (reviewer notes : Option Text) (raw : RawKey) (now : ℕ)
      → review l st unsigned gate sign approve reviewer notes raw now ≡ ok (st', signed)
      → (key : ReleaseKey) × (artifacts : Option (List PublicArtifact)) × (signature : Option
          Envelope)
        × (edit : Edit st st' pending_review
            (set_reviewed
              (if approve then approved else rejected)
              (reviewer_name reviewer)
              (review_text notes)
              now)
            key)
        × (release_key l raw ≡ ok key)
        × (artifacts_for gate approve key ≡ ok artifacts)
        × (signature_for unsigned sign approve edit.0 artifacts ≡ ok (signed, signature))
  unfolding review is_pending
  review_ok gate sign approve reviewer notes raw now h = elim (required_cases l st raw) [
    | inl (e, p) ↦ absurd (ground arith)
    | inr (key, row, k, g, p) ↦ elim (Result-cases (artifacts_for gate approve key)) [
      | inl (e, q) ↦ absurd (ground arith)
      | inr (artifacts, q) ↦
          elim (Result-cases (signature_for unsigned sign approve row artifacts)) [
            | inl (e, u) ↦ absurd (ground arith)
            | inr ((s, signature), u) ↦ (
              key,
              artifacts,
              signature,
              (row, g, ground arith, ground arith),
              k,
              q,
              ground arith,
            )
          ]
    ]
  ]

module _ (l : Locale) (en : Entries) (st : Store en.Descriptor) where
  sanitize_cases :
      (input : en.Input)
      → ((e : Code) × (sanitize l en st input ≡ err e))
        ⊎ ((n : Text) × (d : en.Descriptor) × (key : ReleaseKey) × (sanitize l en st input
              ≡ ok (n, d, key)))
  sanitize_cases input = elim (Result-cases (sanitize l en st input)) [
    | inl (e, p) ↦ inl (e, p)
    | inr (t, p) ↦ inr (t.0, t.1, t.2, p)
  ]

module _ (l : Locale) (en : Entries) (st : Store en.Descriptor) {st' : Store en.Descriptor} where
  pub create_draft_ok :
      (publishers : Publisher.Store) (actor : Option Text) (input : en.Input) (now : ℕ)
      → create_draft l en st publishers actor input now ≡ ok st'
      → (n : Text) × (d : en.Descriptor) × (key : ReleaseKey) × (sanitize l en st input
          ≡ ok (n, d, key))
        × (Table.get st.releases key ≡ none)
        × (st'.releases
            ≡ Table.insert st.releases key (new_release d (en.digest d) (text_or actor []) now))
  unfolding create_draft
  create_draft_ok publishers actor input now h = ground arith

  import_again_ok :
      (key : ReleaseKey) (actor digest : Text) (row : Release en.Descriptor) (now : ℕ)
      → import_again l en st key actor digest row now ≡ ok st'
      → (st' ≡ st)
        ⊎ ((row.state ≡ draft) × (st'.releases ≡ Table.update st.releases key (set_submitted now)))
  unfolding import_again is_draft
  import_again_ok key actor digest row now h = ground arith

  pub import_ok :
      (reviewer : Option Text) (input : en.Input) (now : ℕ)
      → import_reviewed l en st reviewer input now ≡ ok st'
      → (n : Text) × (d : en.Descriptor) × (key : ReleaseKey) × (sanitize l en st input
          ≡ ok (n, d, key))
        × ((st' ≡ st)
            ⊎ Edit st st' draft (set_submitted now) key
            ⊎ ((Table.get st.releases key ≡ none)
                × (st'.releases
                    ≡ Table.update
                        (Table.insert st.releases key
                          (new_release d (en.digest d) (import_actor reviewer) now))
                        key
                        (set_submitted now))))
  unfolding import_reviewed import_new
  import_ok reviewer input now h = elim (sanitize_cases l en st input) [
    | inl (e, p) ↦ absurd (ground arith)
    | inr (n, d, key, p) ↦ elim (Option-cases (Table.get st.releases key)) [
      | inl absent ↦ (n, d, key, p, inr (inr (absent, ground arith)))
      | inr (row, there) ↦ (
        n,
        d,
        key,
        p,
        elim (import_again_ok key (import_actor reviewer) (en.digest d) row now (ground arith)) [
          | inl same ↦ inl same
          | inr (state, edit) ↦ inr (inl (row, there, state, edit))
        ],
      )
    ]
  ]
