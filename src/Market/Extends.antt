-- ===== src/Market/Extends.antt =====
-- Signatures that are stored stay.
use fabushi_backend.Prelude.{
  ℕ, ◌≡◌, refl, ap, ◌∙◌, inl, inr, Bool, true, false, List, Option, none, some, arith, Result-cases,
  Result, ok, err, after,
}
use fabushi_backend.Code.{Code}
use fabushi_backend.Text.{Text, Locale}
use fabushi_backend.Table
use fabushi_backend.Table.{Table, get-update, get-insert}
use fabushi_backend.Identity.{ReleaseKey, key_Eq}
use fabushi_backend.Published.{PublicArtifact, Envelope}
use fabushi_backend.Release.Rows as Releases
use fabushi_backend.Release.Rows.{
  State, approved, revoked, Release, Entries, new_release, set_submitted, import_actor,
}
use fabushi_backend.Release.Effects.{review_ok}
use fabushi_backend.Artifact.Names.{Platform}
use fabushi_backend.Signing.Rows as Signing
use fabushi_backend.Signing.Rows.{Signer, verify_envelope}
use fabushi_backend.Signing.Keys.{start, register_signer, revoke_trust_key}
use fabushi_backend.Signing.Trust.{Extends, sign_release-Extends}
use fabushi_backend.Signing.Releases.{sign_release}
use fabushi_backend.Release.Reviews.{signature_for, artifacts_or_nil}
use fabushi_backend.Market.{
  Market, Call, publishes, drafts, imports, submits, reviews, yanks, revokes, uploads, registers,
  registers_for_review, attaches, scans, starts, revokes_key, step, gate_of, sign_of, after_review,
}

module _ (l : Locale) (p : Platform) (en : Entries) where
  -- The signing store after a step.
  signing-after_review :
      (m : Market en.Descriptor) (r : Result Code (Releases.Store en.Descriptor × Signing.Store))
      → ((st' : Releases.Store en.Descriptor) (s' : Signing.Store)
          → r ≡ ok (st', s')
          → Extends m.signing s')
      → Extends m.signing (after_review m r).signing
  unfolding after_review
  signing-after_review m (ok (st', s')) f = f st' s' refl
  signing-after_review m (err e) f = λ j x there. there

  signing-after :
      (st : Signing.Store) (r : Result Code Signing.Store)
      → ((st' : Signing.Store) → r ≡ ok st' → st'.signatures ≡ st.signatures)
      → Extends st (after st r)
  signing-after st (ok st') f j e there =
      ap (λ (t : Table ReleaseKey Envelope). Table.get t j) (f st' refl) ∙ there
  signing-after st (err x) f j e there = there

  signatures-start :
      (st st' : Signing.Store) (signer : Option Signer) (now : ℕ)
      → start st signer now ≡ ok st'
      → st'.signatures ≡ st.signatures
  unfolding start register_signer
  signatures-start st st' none now h = ground arith
  signatures-start st st' (some s) now h = ground arith

  signatures-revoke_trust_key :
      (st st' : Signing.Store) (id : Option Text) (epoch : Option ℕ) (reason : Option Text)
      (now : ℕ)
      → revoke_trust_key st id epoch reason now ≡ ok st'
      → st'.signatures ≡ st.signatures
  unfolding revoke_trust_key
  signatures-revoke_trust_key st st' id epoch reason now h = ground arith

  signature_for-Extends :
      (st st' : Signing.Store) (now : ℕ) (decision : Bool) (row : Release en.Descriptor)
      (artifacts : Option (List PublicArtifact)) (signature : Option Envelope)
      → signature_for st (some (sign_of l p en st now)) decision row artifacts ≡ ok (st', signature)
      → Extends st st'
  unfolding signature_for sign_of
  signature_for-Extends st st' now false row artifacts signature h =
      let same : st ≡ st' = ground arith in rw (← same) (λ j e there. there)
  signature_for-Extends st st' now true row artifacts signature h =
      elim (Result-cases (
        sign_release l p.crypto st (en.identity row.descriptor) row.descriptor_digest
          (artifacts_or_nil artifacts) now)) [
            | inl (x, q) ↦ absurd (ground arith)
            | inr ((s, e), q) ↦
                let same : s ≡ st' = ground arith in
                rw (← same) (
                  sign_release-Extends l p.crypto st (en.identity row.descriptor)
                    row.descriptor_digest (artifacts_or_nil artifacts) now q)
          ]

  pub step-Extends :
      (m : Market en.Descriptor) (now : ℕ) (c : Call en.Input)
      → Extends m.signing (step l p en m (now, c)).signing
  unfolding step
  step-Extends m now (reviews decision reviewer notes raw) = signing-after_review m _ λ st' s' q.
      let (key, artifacts, signature, edit, _, _, signed) =
        review_ok l m.releases m.signing (some (gate_of l p en m.artifacts))
          (some (sign_of l p en m.signing now)) decision reviewer notes raw now q in
      signature_for-Extends m.signing s' now decision edit.0 artifacts signature signed
  step-Extends m now (starts signer) =
      signing-after m.signing _ λ st' q. signatures-start m.signing st' signer now q
  step-Extends m now (revokes_key id epoch reason) =
      signing-after m.signing _
        λ st' q. signatures-revoke_trust_key m.signing st' id epoch reason now q
  step-Extends m now (publishes r) = λ j e there. there
  step-Extends m now (drafts actor input) = λ j e there. there
  step-Extends m now (imports reviewer input) = λ j e there. there
  step-Extends m now (submits actor raw) = λ j e there. there
  step-Extends m now (yanks actor notes raw) = λ j e there. there
  step-Extends m now (revokes reviewer notes raw) = λ j e there. there
  step-Extends m now (uploads actor raw u) = λ j e there. there
  step-Extends m now (registers actor raw x) = λ j e there. there
  step-Extends m now (registers_for_review reviewer raw x) = λ j e there. there
  step-Extends m now (attaches actor raw id url) = λ j e there. there
  step-Extends m now (scans reviewer raw r) = λ j e there. there
