-- ===== src/Market/Named.antt =====
-- A release stands under the key that its descriptor says.
use fabushi_backend.Prelude.{
  ℕ, ◌≡◌, refl, inl, inr, Option, none, some, arith, Bool-cases, Result, ok, err, after,
}
use fabushi_backend.Code.{Code}
use fabushi_backend.Text.{Text, Locale}
use fabushi_backend.Table
use fabushi_backend.Table.{Table, get-update, get-insert}
use fabushi_backend.Identity.{ReleaseKey, key_Eq, key_beq, key_beq_iff, release_key}
use fabushi_backend.Release.Rows as Releases
use fabushi_backend.Release.Rows.{
  State, approved, revoked, Release, Entries, new_release, set_submitted, import_actor,
}
use fabushi_backend.Release.Drafts.{sanitize, create_draft, import_reviewed}
use fabushi_backend.Release.Effects.{
  Edit, submit_ok, review_ok, yank_ok, revoke_ok, create_draft_ok, import_ok,
}
use fabushi_backend.Artifact.Names.{Platform}
use fabushi_backend.Signing.Rows as Signing
use fabushi_backend.Signing.Rows.{Signer, verify_envelope}
use fabushi_backend.Market.{
  Market, Call, publishes, drafts, imports, submits, reviews, yanks, revokes, uploads, registers,
  registers_for_review, attaches, scans, starts, revokes_key, step, gate_of, sign_of, after_review,
}

sanitize_key :
    (l : Locale) (en : Entries) (st : Releases.Store en.Descriptor) (input : en.Input) (n : Text)
    (d : en.Descriptor) (key : ReleaseKey)
    → sanitize l en st input ≡ ok (n, d, key)
    → release_key l (en.identity d) ≡ ok key
unfolding sanitize
sanitize_key l en st input n d key h = ground arith

absent_after-Edit :
    {D : Type 0} (st st' : Releases.Store D) (s : State) (f : Release D → Release D)
    (key j : ReleaseKey)
    → Edit st st' s f key
    → Table.get st.releases j ≡ none
    → Table.get st'.releases j ≡ none
absent_after-Edit st st' s f key j (row, there, state, e) absent =
    rw e (rw (get-update st.releases key j f, absent) (ground arith))

insert_new :
    {D : Type 0} (t : Table ReleaseKey (Release D)) (key j : ReleaseKey) (row row' : Release D)
    → Table.get t j ≡ none
    → Table.get (Table.insert t key row) j ≡ some row'
    → (key ≡ j) × (row ≡ row')
insert_new t key j row row' absent there = elim (Bool-cases (key_beq key j)) [
  | inl same ↦ ((key_beq_iff key j).0 same, ground (arith, get-insert t key j row))
  | inr other ↦ absurd (ground (arith, get-insert t key j row))
]

submitted_new :
    {D : Type 0} (t : Table ReleaseKey (Release D)) (key j : ReleaseKey) (row row' : Release D)
    (now : ℕ)
    → Table.get t j ≡ none
    → Table.get (Table.update (Table.insert t key row) key (set_submitted now)) j ≡ some row'
    → (key ≡ j) × (row.descriptor ≡ row'.descriptor)
unfolding set_submitted
submitted_new t key j row row' now absent there = elim (Bool-cases (key_beq key j)) [
  | inl same ↦ (
    (key_beq_iff key j).0 same,
    ground (
      arith,
      get-update (Table.insert t key row) key j (set_submitted now),
      get-insert t key j row,
    ),
  )
  | inr other ↦ absurd (
      ground (
        arith,
        get-update (Table.insert t key row) key j (set_submitted now),
        get-insert t key j row,
      ))
]

module _ (l : Locale) (p : Platform) (en : Entries) where
  -- The row stands under the key that its descriptor says.
  abbrev pub IsNamed : ReleaseKey → Release en.Descriptor → Type 0
  IsNamed key row = release_key l (en.identity row.descriptor) ≡ ok key

  module _ (m : Market en.Descriptor) (now : ℕ) (j : ReleaseKey) (row' : Release en.Descriptor)
      (absent : Table.get m.releases.releases j ≡ none) where
    new_after :
        (r : Result Code (Releases.Store en.Descriptor))
        → ((st' : Releases.Store en.Descriptor)
            → r ≡ ok st'
            → Table.get st'.releases j ≡ some row'
            → IsNamed j row')
        → Table.get (after m.releases r).releases j ≡ some row'
        → IsNamed j row'
    new_after (ok st') f there = f st' refl there
    new_after (err e) f there = absurd (ground arith)

    new_after_review :
        (r : Result Code (Releases.Store en.Descriptor × Signing.Store))
        → ((st' : Releases.Store en.Descriptor) (s' : Signing.Store)
            → r ≡ ok (st', s')
            → Table.get st'.releases j ≡ none)
        → Table.get (after_review m r).releases.releases j ≡ some row'
        → IsNamed j row'
    unfolding after_review
    new_after_review (ok (st', s')) f there = absurd (ground (arith, f st' s' refl))
    new_after_review (err e) f there = absurd (ground arith)

    new_of_draft :
        (actor : Option Text) (input : en.Input) (st' : Releases.Store en.Descriptor)
        → create_draft l en m.releases m.publishers actor input now ≡ ok st'
        → Table.get st'.releases j ≡ some row'
        → IsNamed j row'
    unfolding new_release
    new_of_draft actor input st' q there =
        let (n, d, key, s, _, e) = create_draft_ok l en m.releases m.publishers actor input now q in
        let (same, row) = insert_new m.releases.releases key j _ row' absent (rw e at there) in
        rw (← same, ← row) (sanitize_key l en m.releases input n d key s)

    new_of_import :
        (reviewer : Option Text) (input : en.Input) (st' : Releases.Store en.Descriptor)
        → import_reviewed l en m.releases reviewer input now ≡ ok st'
        → Table.get st'.releases j ≡ some row'
        → IsNamed j row'
    unfolding new_release
    new_of_import reviewer input st' q there =
        let (n, d, key, s, c) = import_ok l en m.releases reviewer input now q in
        elim c [
          | inl same ↦ absurd (ground arith)
          | inr (inl edit) ↦ absurd (
              ground
                (arith, absent_after-Edit m.releases st' _ (set_submitted now) key j edit absent))
          | inr (inr (_, e)) ↦
              let (same, row) =
                submitted_new m.releases.releases key j _ row' now absent (rw e at there) in
              rw (← same, ← row) (sanitize_key l en m.releases input n d key s)
        ]

  -- A release that a step brings stands under the key of its descriptor.
  pub step_new :
      (m : Market en.Descriptor) (now : ℕ) (c : Call en.Input) (j : ReleaseKey)
      (row' : Release en.Descriptor)
      → Table.get m.releases.releases j ≡ none
      → Table.get (step l p en m (now, c)).releases.releases j ≡ some row'
      → IsNamed j row'
  unfolding step
  step_new m now (publishes r) j row' absent there = absurd (ground arith)
  step_new m now (drafts actor input) j row' absent there =
      new_after m now j row' absent _ (new_of_draft m now j row' absent actor input) there
  step_new m now (imports reviewer input) j row' absent there =
      new_after m now j row' absent _ (new_of_import m now j row' absent reviewer input) there
  step_new m now (submits actor raw) j row' absent there =
      new_after m now j row' absent _
        (λ st' q k.
          let (key, _, edit) = submit_ok l m.releases m.publishers actor raw now q in
          absurd (ground (arith, absent_after-Edit m.releases st' _ _ key j edit absent)))
        there
  step_new m now (reviews decision reviewer notes raw) j row' absent there =
      new_after_review m now j row' absent _
        (λ st' s' q.
          let (key, _, _, edit, _, _, _) =
            review_ok l m.releases m.signing (some (gate_of l p en m.artifacts))
              (some (sign_of l p en m.signing now)) decision reviewer notes raw now q in
          absent_after-Edit m.releases st' _ _ key j edit absent)
        there
  step_new m now (yanks actor notes raw) j row' absent there =
      new_after m now j row' absent _
        (λ st' q k.
          let (key, _, edit) = yank_ok l m.releases m.publishers actor notes raw now q in
          absurd (ground (arith, absent_after-Edit m.releases st' _ _ key j edit absent)))
        there
  step_new m now (revokes reviewer notes raw) j row' absent there =
      new_after m now j row' absent _
        (λ st' q k.
          let (key, _, edit) = revoke_ok l m.releases reviewer notes raw now q in
          absurd (ground (arith, absent_after-Edit m.releases st' _ _ key j edit absent)))
        there
  step_new m now (uploads actor raw u) j row' absent there = absurd (ground arith)
  step_new m now (registers actor raw e) j row' absent there = absurd (ground arith)
  step_new m now (registers_for_review reviewer raw e) j row' absent there = absurd (ground arith)
  step_new m now (attaches actor raw id url) j row' absent there = absurd (ground arith)
  step_new m now (scans reviewer raw r) j row' absent there = absurd (ground arith)
  step_new m now (starts signer) j row' absent there = absurd (ground arith)
  step_new m now (revokes_key id epoch reason) j row' absent there = absurd (ground arith)
