-- ===== src/Signing/Trust.antt =====
-- The signatures that `signRelease` makes or finds, and the withdrawal of trust keys.
use mathlib.Core.Path.{subst}
use mathlib.Core.Option
use fabushi_backend.Prelude.{
  take, ℕ, ◌≡◌, refl, ap, ◌∙◌, inl, inr, true, false, List, [], ◌∷◌, Option, none, some, arith,
  Bool-cases, Option-cases, Result-cases, text_Eq, pair_Eq, nat_Eq, text_beq_iff, ◌==◌, ◌&&◌,
  if◌then◌else◌, ok, err,
}
use fabushi_backend.Code.{
  Code, invalid_release_identity, invalid_release_version, signing_key_required,
}
use fabushi_backend.Text.{Text, Locale, is_empty, trim, text_or}
use fabushi_backend.Text.Pattern.{
  component_pattern, version_pattern, skip_number, skip_dot, then_number, version_suffix,
}
use fabushi_backend.Table
use fabushi_backend.Table.{Table, get-insert, get-update}
use fabushi_backend.Identity.{
  RawKey, ReleaseKey, key_Eq, key_beq_iff, release_key, normalized_key, normalized_component,
  normalized_version,
}
use fabushi_backend.Published.{PublicArtifact, Envelope}
use fabushi_backend.Signing.Rows.{
  Crypto, Signer, Store, verify_envelope, set_withdrawn, is_active, TrustKey,
}
use fabushi_backend.Signing.Payload.{canonical_payload}
use fabushi_backend.Signing.Keys.{is_signer, key_id, positive_epoch, revoke_trust_key}
use fabushi_backend.Signing.Releases.{
  signing_key, reusable, new_envelope, sign_new, sign_release, trusted, trusts,
}

component_filled : (s : Text) → component_pattern 0 127 s ≡ true → is_empty s ≡ false
unfolding component_pattern is_empty
component_filled [] h = cc
component_filled (c ∷ s) h = refl

version_filled : (s : Text) → version_pattern s ≡ true → is_empty s ≡ false
unfolding version_pattern skip_number skip_dot then_number version_suffix is_empty
version_filled [] h = cc
version_filled (c ∷ s) h = refl

normalized_component_ok :
    (l : Locale) (code : Code) (value : Option Text) (s : Text)
    → normalized_component l code value ≡ ok s
    → (l.lower (trim (text_or value [])) ≡ s) × (is_empty s ≡ false)
unfolding normalized_component
normalized_component_ok l code value s h =
    let e : l.lower (trim (text_or value [])) ≡ s = ground arith in
    (e, component_filled s (ground arith))

normalized_version_ok :
    (code : Code) (value : Option Text) (s : Text)
    → normalized_version code value ≡ ok s
    → (trim (text_or value []) ≡ s) × (is_empty s ≡ false)
unfolding normalized_version
normalized_version_ok code value s h =
    let e : trim (text_or value []) ≡ s = ground arith in (e, version_filled s (ground arith))

normalized_key_ok :
    (l : Locale) (bad bad_version : Code) (raw : RawKey) (key : ReleaseKey)
    → normalized_key l bad bad_version raw ≡ ok key
    → (normalized_component l bad raw.kind ≡ ok key.kind)
      × (normalized_component l bad raw.namespace ≡ ok key.namespace)
      × (normalized_component l bad raw.name ≡ ok key.name)
      × (normalized_version bad_version raw.version ≡ ok key.version)
unfolding normalized_key
normalized_key_ok l bad bad_version raw key h = ground arith

-- The release store's key of an identity is the signing store's.
pub signing_key-release_key :
    (l : Locale) (raw : RawKey) (key : ReleaseKey)
    → release_key l raw ≡ ok key
    → signing_key l raw ≡ ok key
unfolding signing_key release_key
signing_key-release_key l raw key h =
    let (kind, namespace, name, version) =
      normalized_key_ok l invalid_release_identity invalid_release_version raw key h in
    let k = normalized_component_ok l invalid_release_identity raw.kind key.kind kind in
    let n =
      normalized_component_ok l invalid_release_identity raw.namespace key.namespace namespace in
    let m = normalized_component_ok l invalid_release_identity raw.name key.name name in
    let v = normalized_version_ok invalid_release_version raw.version key.version version in
    ground arith

-- Signatures that are there stay.
abbrev pub Extends : Store → Store → Type 0
Extends st st' =
    (j : ReleaseKey) (e : Envelope)
    → Table.get st.signatures j ≡ some e
    → Table.get st'.signatures j ≡ some e

-- An envelope of the signer for a payload.
pub record IsSignatureOf (c : Crypto) (s : Signer) (content : Text) (e : Envelope) : Type 0 where
  pub key_id : e.key_id ≡ s.key_id
  pub trust_epoch : e.trust_epoch ≡ s.trust_epoch
  pub payload : e.payload ≡ content
  pub verified : verify_envelope c e ≡ true

canonical_payload-none :
    (c : Crypto) (identity : RawKey) (digest : Text) (artifacts : List PublicArtifact)
    → canonical_payload c none identity digest artifacts ≡ err signing_key_required
unfolding canonical_payload
canonical_payload-none c identity digest artifacts = refl

module _ (l : Locale) (c : Crypto) (st : Store) where
  reusable_ok :
      (s : Signer) (payload : Text) (e : Envelope)
      → st.signer ≡ some s
      → reusable c st payload e ≡ true
      → IsSignatureOf c s payload e
  unfolding reusable is_signer
  reusable_ok s payload e h k = grind (arith, text_beq_iff)

  sign_new_ok :
      (key : ReleaseKey) (s : Signer) (payload : Text) (now : ℕ) {st' : Store} {e : Envelope}
      → Table.get st.signatures key ≡ none
      → sign_new c st key s payload now ≡ ok (st', e)
      → IsSignatureOf c s payload e × (Table.get st'.signatures key ≡ some e) × Extends st st'
  unfolding sign_new new_envelope
  sign_new_ok key s payload now absent h =
      elim (Bool-cases (verify_envelope c (new_envelope c s payload now))) [
        | inl good ↦ (
          record {
            key_id = ground arith;
            trust_epoch = ground arith;
            payload = ground arith;
            verified = ground arith;
          },
          grind (arith, get-insert, key_beq_iff),
          λ j e' there. grind (arith, get-insert, key_beq_iff),
        )
        | inr bad ↦ absurd (ground arith)
      ]

  -- A call of `signRelease` that does not throw.
  pub sign_release_ok :
      (identity : RawKey) (digest : Text) (artifacts : List PublicArtifact) (now : ℕ)
      (key : ReleaseKey) {st' : Store} {e : Envelope}
      → signing_key l identity ≡ ok key
      → sign_release l c st identity digest artifacts now ≡ ok (st', e)
      → (s : Signer) × (payload : Text) × (canonical_payload c (some s) identity digest artifacts
          ≡ ok payload)
        × IsSignatureOf c s payload e
        × (Table.get st'.signatures key ≡ some e)
        × Extends st st'
  unfolding sign_release
  sign_release_ok identity digest artifacts now key {st'} {e} named h =
      elim (Option-cases st.signer) [
        | inl unset ↦ absurd (ground (arith, canonical_payload-none c identity digest artifacts))
        | inr (s, set) ↦
            elim (Result-cases (canonical_payload c (some s) identity digest artifacts)) [
              | inl (x, q) ↦ absurd (ground arith)
              | inr (payload, q) ↦ elim (Option-cases (Table.get st.signatures key)) [
                | inl absent ↦
                    let (good, there, kept) =
                      sign_new_ok key s payload now {st' = st'} {e = e} absent (ground arith) in
                    (s, payload, q, good, there, kept)
                | inr (old, found) ↦ elim (Bool-cases (reusable c st payload old)) [
                  | inl same ↦
                      let old_e : old ≡ e = ground arith in
                      let old_st : st ≡ st' = ground arith in
                      (
                        s,
                        payload,
                        q,
                        subst (λ x. IsSignatureOf c s payload x) old_e
                            (reusable_ok s payload old set same),
                        subst (λ (x : Store). Table.get x.signatures key ≡ some e) old_st
                            (found ∙ ap some old_e),
                        subst (λ x. Extends st x) old_st (λ j e' there. there),
                      )
                  | inr other ↦ absurd (ground arith)
                ]
              ]
            ]
      ]

  pub sign_release-Extends :
      (identity : RawKey) (digest : Text) (artifacts : List PublicArtifact) (now : ℕ) {st' : Store}
      {e : Envelope}
      → sign_release l c st identity digest artifacts now ≡ ok (st', e)
      → Extends st st'
  unfolding sign_release
  sign_release-Extends identity digest artifacts now {st'} {e} h =
      elim (Result-cases (signing_key l identity)) [
        | inl (x, q) ↦ absurd (ground arith)
        | inr (key, q) ↦
            (sign_release_ok identity digest artifacts now key {st' = st'} {e = e} q h).5
      ]

revoke_trust_key_ok :
    (st st' : Store) (raw_id : Option Text) (raw_epoch : Option ℕ) (reason : Option Text) (now : ℕ)
    (id : Text) (epoch : ℕ)
    → key_id raw_id ≡ ok id
    → positive_epoch raw_epoch ≡ ok epoch
    → revoke_trust_key st raw_id raw_epoch reason now ≡ ok st'
    → st'.trust_keys
      ≡ Table.update st.trust_keys
          (id, epoch)
          (set_withdrawn (take 4000 (trim (text_or reason []))) now)
unfolding revoke_trust_key
revoke_trust_key_ok st st' raw_id raw_epoch reason now id epoch named positive h = ground arith

trusts_withdrawn :
    (found : Option TrustKey) (reason : Text) (now : ℕ) (e : Envelope)
    → trusts (Option.map (set_withdrawn reason now) found) e ≡ false
unfolding trusts set_withdrawn is_active
trusts_withdrawn none reason now e = refl
trusts_withdrawn (some t) reason now e = refl

-- The withdrawal of a trust key ends the trust in every signature of that key and epoch, and in no
-- other.
pub revoke_trust_key-trusted :
    (c : Crypto) (st st' : Store) (raw_id : Option Text) (raw_epoch : Option ℕ)
    (reason : Option Text) (now : ℕ) (id : Text) (epoch : ℕ) (e : Envelope)
    → key_id raw_id ≡ ok id
    → positive_epoch raw_epoch ≡ ok epoch
    → revoke_trust_key st raw_id raw_epoch reason now ≡ ok st'
    → trusted c st' e
      ≡ (if (id == e.key_id) && (epoch == e.trust_epoch) then false else trusted c st e)
unfolding trusted
revoke_trust_key-trusted c st st' raw_id raw_epoch reason now id epoch e named positive h =
    let f = set_withdrawn (take 4000 (trim (text_or reason []))) now in
    let written =
      revoke_trust_key_ok st st' raw_id raw_epoch reason now id epoch named positive h in
    elim (Bool-cases ((id == e.key_id) && (epoch == e.trust_epoch))) [
      | inl same ↦
          rw (written, get-update st.trust_keys (id, epoch) (e.key_id, e.trust_epoch) f, same)
            (rw (trusts_withdrawn _ _ now e) refl)
      | inr other ↦
          rw (written, get-update st.trust_keys (id, epoch) (e.key_id, e.trust_epoch) f, other) refl
    ]
