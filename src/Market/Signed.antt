-- ===== src/Market/Signed.antt =====
-- Every approved release has a verified signature of what it consists of.
use fabushi_backend.Prelude.{
  ℕ, ◌≡◌, sym, ap, ◌∙◌, ◌⊎◌, inl, inr, true, List, [], ◌∷◌, some, map, arith, Option-cases, ok,
}
use fabushi_backend.Code.{invalid_artifact_identity, invalid_artifact_version}
use fabushi_backend.Text.{Text, Locale}
use fabushi_backend.Table
use fabushi_backend.Table.{Table, get-update, get-insert}
use fabushi_backend.Identity.{ReleaseKey, RawKey, key_Eq, artifact_release_key}
use fabushi_backend.Identity.Laws.{IsNormal, normalized_key_again}
use fabushi_backend.Published.{PublicArtifact, Envelope}
use fabushi_backend.Release.Rows.{approved, revoked, Release, Entries}
use fabushi_backend.Artifact.Rows as Artifacts
use fabushi_backend.Artifact.Rows.{rows_of}
use fabushi_backend.Artifact.Names.{Platform}
use fabushi_backend.Artifact.Scans.{approval_gate, public_artifact}
use fabushi_backend.Signing.Rows.{Signer, verify_envelope}
use fabushi_backend.Signing.Payload.{canonical_payload}
use fabushi_backend.Signing.Trust.{IsSignatureOf, signing_key-release_key, sign_release_ok}
use fabushi_backend.Market.{Market, Call, step, run, gate_of, sign_of, empty_market}
use fabushi_backend.Market.Lifecycle.{step-Lives}
use fabushi_backend.Market.Steps.{was_approved, was_approved_at, Approves, step_origin, step_rows}
use fabushi_backend.Market.Approval.{IsClean, step-IsClean, IsClean-empty}
use fabushi_backend.Market.Named.{IsNamed, step_new}
use fabushi_backend.Market.Extends.{step-Extends}

module _ (l : Locale) (p : Platform) (en : Entries) where
  -- The signature of a release: stored under its key, of some signer, for the payload of its
  -- descriptor, its digest and its artifacts.
  abbrev pub HasSignature : Market en.Descriptor → ReleaseKey → Text → RawKey → Type 0
  HasSignature m key digest identity =
      (e : Envelope) × (s : Signer) × (payload : Text) × (Table.get m.signing.signatures key
        ≡ some e)
      × IsSignatureOf p.crypto s payload e
      × (canonical_payload p.crypto (some s) identity digest
            (map public_artifact (rows_of m.artifacts.artifacts key))
          ≡ ok payload)

  record IsSigned (m : Market en.Descriptor) : Type 0 where
    named :
        (key : ReleaseKey) (row : Release en.Descriptor)
        → Table.get m.releases.releases key ≡ some row
        → IsNamed l p en key row
    signed :
        (key : ReleaseKey) (row : Release en.Descriptor)
        → Table.get m.releases.releases key ≡ some row
        → was_approved row.state ≡ true
        → HasSignature m key row.descriptor_digest (en.identity row.descriptor)

  gate_of_rows :
      (artifacts : Artifacts.Store) (key : ReleaseKey) {rows : List PublicArtifact}
      → IsNormal key
      → gate_of l p en artifacts key ≡ ok rows
      → rows ≡ map public_artifact (rows_of artifacts.artifacts key)
  unfolding gate_of approval_gate artifact_release_key
  gate_of_rows artifacts key n h =
      ground
        (arith, normalized_key_again l invalid_artifact_identity invalid_artifact_version key n)

  -- A release of before and after a step is the same, but for its state and its review.
  step_same :
      (m : Market en.Descriptor) (now : ℕ) (c : Call en.Input) (key : ReleaseKey)
      (row row' : Release en.Descriptor)
      → Table.get m.releases.releases key ≡ some row
      → Table.get (step l p en m (now, c)).releases.releases key ≡ some row'
      → (row'.descriptor ≡ row.descriptor) × (row'.descriptor_digest ≡ row.descriptor_digest)
  step_same m now c key row row' there after' =
      let (r, there', ev) = step-Lives l p en m now c key row there in
      let same : r ≡ row' = cc in (rw (← same) ev.descriptor, rw (← same) ev.descriptor_digest)

  step-IsNamed :
      (m : Market en.Descriptor) (now : ℕ) (c : Call en.Input)
      → IsSigned m
      → (key : ReleaseKey) (row' : Release en.Descriptor)
      → Table.get (step l p en m (now, c)).releases.releases key ≡ some row'
      → IsNamed l p en key row'
  step-IsNamed m now c v key row' there = elim (Option-cases (Table.get m.releases.releases key)) [
    | inl absent ↦ step_new l p en m now c key row' absent there
    | inr (row, old) ↦ rw ((step_same m now c key row row' old there).0) (v.named key row old)
  ]

  -- A signature that was there is still the one for the release.
  keeps_signature :
      (m : Market en.Descriptor) (now : ℕ) (c : Call en.Input) (key : ReleaseKey) (digest : Text)
      (identity : RawKey)
      → IsClean m
      → was_approved_at m.releases key ≡ true
      → HasSignature m key digest identity
      → HasSignature (step l p en m (now, c)) key digest identity
  keeps_signature m now c key digest identity clean approved_before
        (e, s, payload, there, good, signed) =
      (
        e,
        s,
        payload,
        step-Extends l p en m now c key e there,
        good,
        rw (step_rows l p en m now c key (clean.scanned key approved_before).1 approved_before)
            signed,
      )

  signed_by_review :
      (m m' : Market en.Descriptor) (now : ℕ) (key : ReleaseKey)
      → IsSigned m
      → (a : Approves l p en m m' now key)
      → HasSignature m' key a.row.descriptor_digest (en.identity a.row.descriptor)
  unfolding sign_of
  signed_by_review m m' now key v a =
      let (s, payload, canonical, good, there, _) =
        sign_release_ok l p.crypto m.signing (en.identity a.row.descriptor) a.row.descriptor_digest
          a.artifacts now key
          (signing_key-release_key l (en.identity a.row.descriptor) key (v.named key a.row a.there))
          a.signed in
      (
        a.envelope,
        s,
        payload,
        there,
        good,
        rw (a.kept, ← gate_of_rows m.artifacts key a.normal a.gate) canonical,
      )

  step-IsSigned :
      (m : Market en.Descriptor) (now : ℕ) (c : Call en.Input)
      → IsClean m
      → IsSigned m
      → IsSigned (step l p en m (now, c))
  step-IsSigned m now c clean v = record {
    named = step-IsNamed m now c v;
    signed = λ key row' there' new.
        elim (step_origin l p en m now c key (rw (was_approved_at, there') new)) [
          | inl old ↦ elim (Option-cases (Table.get m.releases.releases key)) [
            | inl absent ↦ absurd (ground arith)
            | inr (row, there) ↦
                let (d, g) = step_same m now c key row row' there there' in
                rw (d, g)
                  (keeps_signature m now c key row.descriptor_digest (en.identity row.descriptor)
                    clean old (v.signed key row there (ground arith)))
          ]
          | inr a ↦
              let (d, g) = step_same m now c key a.row row' a.there there' in
              rw (d, g) (signed_by_review m (step l p en m (now, c)) now key v a)
        ];
  }

  run-IsSigned :
      (m : Market en.Descriptor) (cs : List (ℕ × Call en.Input))
      → IsClean m
      → IsSigned m
      → IsSigned (run l p en m cs)
  unfolding run
  run-IsSigned m [] clean v = v
  run-IsSigned m ((now, c) ∷ cs) clean v =
      run-IsSigned (step l p en m (now, c)) cs (step-IsClean l p en m now c clean)
        (step-IsSigned m now c clean v)

  IsSigned-empty : (max_bytes : ℕ) → IsSigned (empty_market {D = en.Descriptor} max_bytes)
  unfolding Table.get
  IsSigned-empty max_bytes = record {
    named = λ key row there. absurd (ground arith);
    signed = λ key row there new. absurd (ground arith);
  }

  -- After any history of requests to an empty marketplace, valid or not, restarts with new signers
  -- and revocations of keys among them, a release that is approved, or was and has been withdrawn,
  -- has a signature that verifies. What is signed is the canonical payload, by a signer of the key
  -- and epoch that the signature names, of the release as it now is: the identity and version of
  -- its descriptor, its digest and all of its artifacts.
  pub approved_signed :
      (max_bytes : ℕ) (cs : List (ℕ × Call en.Input)) (key : ReleaseKey)
      (row : Release en.Descriptor)
      → let m = run l p en (empty_market max_bytes) cs in
        Table.get m.releases.releases key ≡ some row
        → (row.state ≡ approved) ⊎ (row.state ≡ revoked)
        → (e : Envelope) × (s : Signer) × (Table.get m.signing.signatures key ≡ some e)
          × (verify_envelope p.crypto e ≡ true)
          × (e.key_id ≡ s.key_id)
          × (e.trust_epoch ≡ s.trust_epoch)
          × (canonical_payload p.crypto
                (some s)
                (en.identity row.descriptor)
                row.descriptor_digest
                (map public_artifact (rows_of m.artifacts.artifacts key))
              ≡ ok e.payload)
  approved_signed max_bytes cs key row there state =
      let (e, s, payload, found, good, canonical) =
        (run-IsSigned (empty_market max_bytes) cs (IsClean-empty l p en max_bytes)
            (IsSigned-empty max_bytes)).signed
          key row there (ground arith) in
      (
        e,
        s,
        found,
        good.verified,
        good.key_id,
        good.trust_epoch,
        canonical ∙ ap ok (sym good.payload),
      )
