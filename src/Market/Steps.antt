-- ===== src/Market/Steps.antt =====
-- Where the approval of a release comes from: one step of the marketplace approves a release only
-- by a review, and changes no listing of an approved one.
use mathlib.Core.Path.{subst}
use fabushi_backend.Prelude.{
  ℕ, ◌≡◌, refl, ap, ◌⊎◌, inl, inr, Bool, true, false, List, Option, none, some, arith, Bool-cases,
  Result-cases, Result, ok, err, after, if◌then◌else◌,
}
use fabushi_backend.Code.{Code}
use fabushi_backend.Text.{Text, Locale}
use fabushi_backend.Table
use fabushi_backend.Table.{Table, get-update, get-insert}
use fabushi_backend.Identity.{ReleaseKey, RawKey, key_Eq, key_beq, key_beq_iff, release_key}
use fabushi_backend.Identity.Laws.{IsNormal, normalized_key-IsNormal}
use fabushi_backend.Code.{invalid_release_identity, invalid_release_version}
use fabushi_backend.Release.Rows as Releases
use fabushi_backend.Release.Rows.{
  State, draft, pending_review, approved, rejected, revoked, is_draft, is_pending, Release, Entries,
  new_release, import_actor, set_submitted, set_reviewed, set_revoked,
}
use fabushi_backend.Release.Drafts.{import_reviewed}
use fabushi_backend.Release.Reviews
use fabushi_backend.Release.Reviews.{artifacts_for, signature_for}
use fabushi_backend.Published.{PublicArtifact, Envelope}
use fabushi_backend.Signing.Rows as Signing
use fabushi_backend.Release.Effects.{
  Edit, submit_ok, review_ok, yank_ok, revoke_ok, create_draft_ok, import_ok,
}
use fabushi_backend.Artifact.Rows as Artifacts
use fabushi_backend.Artifact.Rows.{Artifact, rows_of}
use fabushi_backend.Artifact.Names.{Platform}
use fabushi_backend.Artifact.Bindings.{is_open}
use fabushi_backend.Artifact.Scans.{all_passed}
use fabushi_backend.Artifact.Effects.{is_open_at}
use fabushi_backend.Artifact.Frozen.{
  register_external-Guarded, register_external_for_review-Guarded, attach_url-Guarded,
  upload-Guarded, record_scan-Guarded,
}
use fabushi_backend.Market.{
  Market, Call, publishes, drafts, imports, submits, reviews, yanks, revokes, uploads, registers,
  registers_for_review, attaches, scans, starts, revokes_key, step, gate_of, sign_of, after_review,
}

-- approved, or approved once and then withdrawn
abbrev pub was_approved : State → Bool
was_approved approved = true
was_approved revoked = true
was_approved _ = false

abbrev pub was_approved_at : {D : Type 0} → Releases.Store D → ReleaseKey → Bool
was_approved_at st key = elim (Table.get st.releases key) [
  | none ↦ false
  | some r ↦ was_approved r.state
]

pub closed_of_approved :
    {D : Type 0} (st : Releases.Store D) (key : ReleaseKey)
    → was_approved_at st key ≡ true
    → is_open_at st key ≡ false
unfolding is_open is_draft is_pending
closed_of_approved st key h = ground arith

module _ {D : Type 0} (st st' : Releases.Store D) where
  -- A rewrite of one row approves no other release.
  update_approved :
      (key j : ReleaseKey) (row : Release D) (f : Release D → Release D)
      → Table.get st.releases key ≡ some row
      → st'.releases ≡ Table.update st.releases key f
      → was_approved_at st' j ≡ true
      → (was_approved_at st j ≡ true) ⊎ ((key ≡ j) × (was_approved (f row).state ≡ true))
  update_approved key j row f found e h = elim (Bool-cases (key_beq key j)) [
    | inl same ↦
        let k = (key_beq_iff key j).0 same in
        inr (
          k,
          ground (
            arith,
            get-update st.releases key j f,
            ap (λ (t : Table ReleaseKey (Release D)). Table.get t j) e,
            ap (Table.get st.releases) k,
          ),
        )
    | inr other ↦ inl (
        ground (
          arith,
          get-update st.releases key j f,
          ap (λ (t : Table ReleaseKey (Release D)). Table.get t j) e,
        ))
  ]

  insert_approved :
      (key j : ReleaseKey) (row : Release D)
      → st'.releases ≡ Table.insert st.releases key row
      → was_approved row.state ≡ false
      → was_approved_at st' j ≡ true
      → was_approved_at st j ≡ true
  insert_approved key j row e fresh h = ground (
    arith,
    get-insert st.releases key j row,
    ap (λ (t : Table ReleaseKey (Release D)). Table.get t j) e,
  )

  -- A rewrite that leads to no approval.
  approved_of_rewrite :
      (key j : ReleaseKey) (s : State) (f : Release D → Release D)
      → Edit st st' s f key
      → ((row : Release D) → was_approved (f row).state ≡ false)
      → was_approved_at st' j ≡ true
      → was_approved_at st j ≡ true
  approved_of_rewrite key j s f (row, found, state, e) not_yet h =
      elim (update_approved key j row f found e h) [
        | inl old ↦ old
        | inr (k, new) ↦ cc (not_yet row, new)
      ]

  -- A withdrawal.
  revoke_approved :
      (key j : ReleaseKey) (f : Release D → Release D)
      → Edit st st' approved f key
      → was_approved_at st' j ≡ true
      → was_approved_at st j ≡ true
  revoke_approved key j f (row, found, state, e) h = elim (update_approved key j row f found e h) [
    | inl old ↦ old
    | inr (k, new) ↦ rw (← k) (ground arith)
  ]

rows_of-after :
    (a : Artifacts.Store) (r : Result Code Artifacts.Store) (key : ReleaseKey)
    → ((a' : Artifacts.Store) → r ≡ ok a' → rows_of a'.artifacts key ≡ rows_of a.artifacts key)
    → rows_of (after a r).artifacts key ≡ rows_of a.artifacts key
rows_of-after a (ok a') key same = same a' refl
rows_of-after a (err e) key same = refl

artifacts-after_review :
    {D : Type 0} (m : Market D) (r : Result Code (Releases.Store D × Signing.Store))
    → (after_review m r).artifacts ≡ m.artifacts
unfolding after_review
artifacts-after_review m (ok (st', s')) = refl
artifacts-after_review m (err e) = refl

-- An approval of the release at `key`: what the review has found and done.
pub record Approves (l : Locale) (p : Platform) (en : Entries) (m m' : Market en.Descriptor)
    (now : ℕ) (key : ReleaseKey) : Type 0 where
  pub row : Release en.Descriptor
  pub artifacts : List PublicArtifact
  pub envelope : Envelope
  pub there : Table.get m.releases.releases key ≡ some row
  pub normal : IsNormal key
  pub gate : gate_of l p en m.artifacts key ≡ ok artifacts
  pub signed :
      sign_of l p en m.signing now row.descriptor row.descriptor_digest artifacts
      ≡ ok (m'.signing, envelope)
  pub kept : m'.artifacts ≡ m.artifacts

module _ (l : Locale) (p : Platform) (en : Entries) where
  import_approved :
      (st st' : Releases.Store en.Descriptor) (j : ReleaseKey) (reviewer : Option Text)
      (input : en.Input) (now : ℕ)
      → import_reviewed l en st reviewer input now ≡ ok st'
      → was_approved_at st' j ≡ true
      → was_approved_at st j ≡ true
  unfolding set_submitted new_release
  import_approved st st' j reviewer input now h k =
      let (n, d, key, _, c) = import_ok l en st reviewer input now h in
      elim c [
        | inl same ↦ rw (← same) k
        | inr (inl edit) ↦
            approved_of_rewrite st st' key j draft (set_submitted now) edit (λ row. refl) k
        | inr (inr (absent, e)) ↦ ground (
          arith,
          get-update
              (Table.insert st.releases key
                (new_release d (en.digest d) (import_actor reviewer) now))
              key j (set_submitted now),
          get-insert st.releases key j (new_release d (en.digest d) (import_actor reviewer) now),
          ap (λ (t : Table ReleaseKey (Release en.Descriptor)). Table.get t j) e,
        )
      ]

  pub step_rows :
      (m : Market en.Descriptor) (now : ℕ) (c : Call en.Input) (key : ReleaseKey)
      → all_passed (rows_of m.artifacts.artifacts key) ≡ true
      → was_approved_at m.releases key ≡ true
      → rows_of (step l p en m (now, c)).artifacts.artifacts key ≡ rows_of m.artifacts.artifacts key
  unfolding step
  step_rows m now (publishes r) key v h = refl
  step_rows m now (drafts actor input) key v h = refl
  step_rows m now (imports reviewer input) key v h = refl
  step_rows m now (submits actor raw) key v h = refl
  step_rows m now (reviews decision reviewer notes raw) key v h =
      ap (λ (a : Artifacts.Store). rows_of a.artifacts key) (artifacts-after_review m _)
  step_rows m now (yanks actor notes raw) key v h = refl
  step_rows m now (revokes reviewer notes raw) key v h = refl
  step_rows m now (uploads actor raw u) key v h =
      upload-Guarded l p m.releases m.artifacts m.publishers actor raw u now key
        (closed_of_approved m.releases key h)
  step_rows m now (registers actor raw e) key v h = rows_of-after m.artifacts _ key λ a q.
      register_external-Guarded l p m.releases m.artifacts m.publishers actor raw e now q key
        (closed_of_approved m.releases key h)
  step_rows m now (registers_for_review reviewer raw e) key v h =
      rows_of-after m.artifacts _ key λ a q.
        register_external_for_review-Guarded l p m.releases m.artifacts reviewer raw e now q key
          (closed_of_approved m.releases key h)
  step_rows m now (attaches actor raw id url) key v h = rows_of-after m.artifacts _ key λ a q.
      attach_url-Guarded l p m.releases m.artifacts m.publishers actor raw id url now q key
        (closed_of_approved m.releases key h)
  step_rows m now (starts signer) key v h = refl
  step_rows m now (revokes_key id epoch reason) key v h = refl
  step_rows m now (scans reviewer raw r) key v h =
      rows_of-after m.artifacts _ key
        λ a q. record_scan-Guarded l m.artifacts reviewer raw r now q key v

  gate_ok :
      (artifacts : Artifacts.Store) (key : ReleaseKey) {found : Option (List PublicArtifact)}
      → artifacts_for (some (gate_of l p en artifacts)) true key ≡ ok found
      → (rows : List PublicArtifact) × (found ≡ some rows)
        × (gate_of l p en artifacts key ≡ ok rows)
  unfolding artifacts_for
  gate_ok artifacts key h = elim (Result-cases (gate_of l p en artifacts key)) [
    | inl (e, q) ↦ absurd (ground arith)
    | inr (rows, q) ↦ (rows, ground arith, q)
  ]

  signature_ok :
      (m : Market en.Descriptor) (now : ℕ) (row : Release en.Descriptor)
      (rows : List PublicArtifact) {s' : Signing.Store} {signature : Option Envelope}
      → signature_for m.signing (some (sign_of l p en m.signing now)) true row (some rows)
        ≡ ok (s', signature)
      → (envelope : Envelope) × (sign_of l p en m.signing now row.descriptor row.descriptor_digest
            rows
          ≡ ok (s', envelope))
  unfolding signature_for
  signature_ok m now row rows h =
      elim (Result-cases (sign_of l p en m.signing now row.descriptor row.descriptor_digest rows)) [
        | inl (e, q) ↦ absurd (ground arith)
        | inr ((s, envelope), q) ↦ (envelope, ground arith)
      ]

  approves :
      (m : Market en.Descriptor) (st' : Releases.Store en.Descriptor) (s' : Signing.Store)
      (decision : Bool) (now : ℕ) (key : ReleaseKey) (row : Release en.Descriptor)
      (artifacts : Option (List PublicArtifact)) (signature : Option Envelope)
      → was_approved (if decision then approved else rejected) ≡ true
      → Table.get m.releases.releases key ≡ some row
      → IsNormal key
      → artifacts_for (some (gate_of l p en m.artifacts)) decision key ≡ ok artifacts
      → signature_for m.signing (some (sign_of l p en m.signing now)) decision row artifacts
        ≡ ok (s', signature)
      → Approves l p en m (record m { releases = st'; signing = s' }) now key
  approves m st' s' true now key row artifacts signature new there n gate signed =
      let (rows, found, passed) = gate_ok m.artifacts key gate in
      let (envelope, u) = signature_ok m now row rows (rw found at signed) in
      record {
        row = row;
        artifacts = rows;
        envelope = envelope;
        there = there;
        normal = n;
        gate = passed;
        signed = u;
        kept = refl;
      }
  approves m st' s' false now key row artifacts signature new there n gate signed =
      absurd (ground arith)

  review_ok_origin :
      (m : Market en.Descriptor) (st' : Releases.Store en.Descriptor) (s' : Signing.Store)
      (decision : Bool) (reviewer notes : Option Text) (raw : RawKey) (now : ℕ) (j : ReleaseKey)
      → Reviews.review l m.releases m.signing
          (some (gate_of l p en m.artifacts))
          (some (sign_of l p en m.signing now))
          decision
          reviewer
          notes
          raw
          now
        ≡ ok (st', s')
      → was_approved_at st' j ≡ true
      → (was_approved_at m.releases j ≡ true)
        ⊎ Approves l p en m (record m { releases = st'; signing = s' }) now j
  unfolding set_reviewed release_key
  review_ok_origin m st' s' decision reviewer notes raw now j h k =
      let (key, artifacts, signature, (row, found, state, e), named, gate, signed) =
        review_ok l m.releases m.signing (some (gate_of l p en m.artifacts))
          (some (sign_of l p en m.signing now)) decision reviewer notes raw now h in
      elim (update_approved m.releases st' key j row _ found e k) [
        | inl old ↦ inl old
        | inr (same, new) ↦ inr (
            subst (λ i. Approves l p en m (record m { releases = st'; signing = s' }) now i) same
              (approves m st' s' decision now key row artifacts signature new found
                (normalized_key-IsNormal l invalid_release_identity invalid_release_version raw key
                  named)
                gate signed))
      ]

  origin_after :
      (m : Market en.Descriptor) (now : ℕ) (j : ReleaseKey)
      (r : Result Code (Releases.Store en.Descriptor × Signing.Store))
      → ((st' : Releases.Store en.Descriptor) (s' : Signing.Store)
          → r ≡ ok (st', s')
          → was_approved_at st' j ≡ true
          → (was_approved_at m.releases j ≡ true)
            ⊎ Approves l p en m (record m { releases = st'; signing = s' }) now j)
      → was_approved_at (after_review m r).releases j ≡ true
      → (was_approved_at m.releases j ≡ true) ⊎ Approves l p en m (after_review m r) now j
  unfolding after_review
  origin_after m now j (ok (st', s')) f h = f st' s' refl h
  origin_after m now j (err e) f h = inl h

  released_back :
      (m : Market en.Descriptor) (j : ReleaseKey) (r : Result Code (Releases.Store en.Descriptor))
      → ((st' : Releases.Store en.Descriptor)
          → r ≡ ok st'
          → was_approved_at st' j ≡ true
          → was_approved_at m.releases j ≡ true)
      → was_approved_at (after m.releases r) j ≡ true
      → was_approved_at m.releases j ≡ true
  released_back m j (ok st') f h = f st' refl h
  released_back m j (err e) f h = h

  -- A release that is approved after a step, or was, was so before, or the step has approved it.
  pub step_origin :
      (m : Market en.Descriptor) (now : ℕ) (c : Call en.Input) (j : ReleaseKey)
      → was_approved_at (step l p en m (now, c)).releases j ≡ true
      → (was_approved_at m.releases j ≡ true) ⊎ Approves l p en m (step l p en m (now, c)) now j
  unfolding step
  step_origin m now (publishes r) j h = inl h
  step_origin m now (drafts actor input) j h = inl (
      released_back m j _
        (λ st' q k.
          let (n, d, key, s, absent, e) =
            create_draft_ok l en m.releases m.publishers actor input now q in
          insert_approved m.releases st' key j _ e (unfold new_release in refl) k)
        h)
  step_origin m now (imports reviewer input) j h =
      inl
        (released_back m j _ (λ st' q k. import_approved m.releases st' j reviewer input now q k) h)
  step_origin m now (submits actor raw) j h = inl (
      released_back m j _
        (λ st' q k.
          let (key, _, edit) = submit_ok l m.releases m.publishers actor raw now q in
          approved_of_rewrite m.releases st' key j draft _ edit
            (λ row. unfold set_submitted in refl) k)
        h)
  step_origin m now (reviews decision reviewer notes raw) j h =
      origin_after m now j _
        (λ st' s' q k. review_ok_origin m st' s' decision reviewer notes raw now j q k) h
  step_origin m now (yanks actor notes raw) j h = inl (
      released_back m j _
        (λ st' q k.
          let (key, _, edit) = yank_ok l m.releases m.publishers actor notes raw now q in
          revoke_approved m.releases st' key j _ edit k)
        h)
  step_origin m now (revokes reviewer notes raw) j h = inl (
      released_back m j _
        (λ st' q k.
          let (key, _, edit) = revoke_ok l m.releases reviewer notes raw now q in
          revoke_approved m.releases st' key j _ edit k)
        h)
  step_origin m now (uploads actor raw u) j h = inl h
  step_origin m now (registers actor raw e) j h = inl h
  step_origin m now (registers_for_review reviewer raw e) j h = inl h
  step_origin m now (attaches actor raw id url) j h = inl h
  step_origin m now (scans reviewer raw r) j h = inl h
  step_origin m now (starts signer) j h = inl h
  step_origin m now (revokes_key id epoch reason) j h = inl h
