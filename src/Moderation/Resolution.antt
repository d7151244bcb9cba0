-- ===== src/Moderation/Resolution.antt =====
-- What the resolution of a report does, to the release and to the case.
use fabushi_backend.Prelude.{
  ℕ, ◌≡◌, refl, sym, ap, ◌∙◌, inl, inr, true, Option, none, some, arith, Option-cases, Result-cases,
  Bool-cases, ok, text_Eq, ◌++◌, text_beq_iff,
}
use fabushi_backend.Code.{
  invalid_moderation_decision, invalid_release_identity, invalid_release_version,
}
use fabushi_backend.Text.{Text, codes, Locale, or_else}
use fabushi_backend.Table
use fabushi_backend.Table.{Table, get-update}
use fabushi_backend.Identity.{ReleaseKey, key_Eq, key_beq_iff, release_key}
use fabushi_backend.Identity.Laws.{raw_of, IsNormal, normalized_key_again}
use fabushi_backend.Release.Rows as Releases
use fabushi_backend.Release.Rows.{Release, set_revoked, is_approved, reviewer_name, review_text}
use fabushi_backend.Release.Drafts.{get_release}
use fabushi_backend.Release.Reviews.{revoke}
use fabushi_backend.Release.Effects.{revoke_ok}
use fabushi_backend.Moderation.Rows.{
  Case, Store, actioned, set_resolved, CaseState, CaseType, report,
}
use fabushi_backend.Moderation.Names.{
  case_id, decided, moderation_key, moderation_component, moderation_version,
}
use fabushi_backend.Moderation.Reports.{
  required_case, add_audit, resolve_case, Verdict, Ruling, ruling, withdraw, act, is_revoked,
  resolve_ruling, resolve_report,
}
use fabushi_backend.Publisher.Handover.{ok-injective}

moderation_key-IsNormal :
    (l : Locale) (k key : ReleaseKey) → moderation_key l (raw_of k) ≡ ok key → IsNormal key
unfolding moderation_key moderation_component moderation_version
moderation_key-IsNormal l k key h = ground arith

release_key_again :
    (l : Locale) (key : ReleaseKey) → IsNormal key → release_key l (raw_of key) ≡ ok key
unfolding release_key
release_key_again l key n =
    normalized_key_again l invalid_release_identity invalid_release_version key n

-- A case that is resolved is found resolved.
resolve_case_ok :
    (st : Store) (id : Text) (row : Case) (type : CaseType) (state : CaseState)
    (reviewer resolution decision : Text) (now : ℕ) {st' : Store}
    → resolve_case st id row type state reviewer resolution decision now ≡ ok st'
    → st'.cases ≡ Table.update st.cases id (set_resolved state reviewer resolution now)
unfolding resolve_case add_audit
resolve_case_ok st id row type state reviewer resolution decision now h = ground arith

module _ (l : Locale) {D : Type 0} (releases : Releases.Store D) (st : Store) where
  revoke_withdraws :
      (reviewer notes : Option Text) (key : ReleaseKey) (now : ℕ) {kept : Releases.Store D}
      → IsNormal key
      → revoke l releases reviewer notes (raw_of key) now ≡ ok kept
      → (row : Release D) × (Table.get kept.releases key ≡ some row)
        × (row.state ≡ Releases.revoked)
  unfolding set_revoked
  revoke_withdraws reviewer notes key now {kept} n h =
      let (key', named, (row, found, state, e)) =
        revoke_ok l releases reviewer notes (raw_of key) now h in
      let same : key' ≡ key = ok-injective (sym named ∙ release_key_again l key n) in
      (
        set_revoked (reviewer_name reviewer) (review_text notes) now row,
        ap (λ (t : Table ReleaseKey (Release D)). Table.get t key) e
            ∙ rw (← same) (
                rw (
                  get-update releases.releases key' key'
                      (set_revoked (reviewer_name reviewer) (review_text notes) now),
                  (key_beq_iff key' key').1 refl,
                  found,
                )),
        refl,
      )

  -- A withdrawal that does not throw finds the release or leaves it withdrawn.
  act_ok :
      (c : Ruling) (now : ℕ) {kept : Releases.Store D}
      → IsNormal c.key
      → act l releases st c now ≡ ok kept
      → (row : Release D) × (Table.get kept.releases c.key ≡ some row)
        × (row.state ≡ Releases.revoked)
  unfolding act withdraw is_revoked get_release
  act_ok c now {kept} n h = elim (Option-cases (Table.get releases.releases c.key)) [
    | inl absent ↦ absurd (ground (arith, release_key_again l c.key n))
    | inr (row, there) ↦ elim (Bool-cases (is_approved row.state)) [
      | inl live ↦
          revoke_withdraws (some c.reviewer)
            (some (or_else c.resolution (codes "moderation case " ++ c.id))) c.key now {kept = kept}
            n (ground (arith, release_key_again l c.key n))
      | inr gone ↦ (
        row,
        ground (arith, release_key_again l c.key n),
        ground (arith, release_key_again l c.key n),
      )
    ]
  ]

  ruling_ok :
      (v : Verdict) {c : Ruling}
      → ruling l releases st v ≡ ok c
      → (case_id v.case_id ≡ ok c.id)
        × (Table.get st.cases c.id ≡ some c.row)
        × (decided l (codes "revoke") (codes "dismiss") invalid_moderation_decision v.decision
            ≡ ok c.revokes)
        × (moderation_key l (raw_of c.row.key) ≡ ok c.key)
  unfolding ruling required_case
  ruling_ok v h = ground arith

  ruling_of :
      (v : Verdict) (now : ℕ) {kept : Releases.Store D} {st' : Store}
      → resolve_report l releases st v now ≡ (kept, st', none)
      → (c : Ruling) × (ruling l releases st v ≡ ok c)
        × (resolve_ruling l releases st c now ≡ (kept, st', none))
  unfolding resolve_report
  ruling_of v now h = elim (Result-cases (ruling l releases st v)) [
    | inl (e, q) ↦ absurd (ground arith)
    | inr (c, q) ↦ (c, q, ground arith)
  ]

  act_of :
      (c : Ruling) (now : ℕ) {kept : Releases.Store D} {st' : Store}
      → c.revokes ≡ true
      → resolve_ruling l releases st c now ≡ (kept, st', none)
      → (act l releases st c now ≡ ok kept)
        × (st'.cases
            ≡ Table.update st.cases c.id (set_resolved actioned c.reviewer c.resolution now))
  unfolding resolve_ruling
  act_of c now r h = elim (Result-cases (act l releases st c now)) [
    | inl (e, q) ↦ absurd (ground arith)
    | inr (k, q) ↦
        elim (Result-cases (
          resolve_case st c.id c.row report actioned c.reviewer c.resolution (codes "revoke")
            now)) [
              | inl (e, u) ↦ absurd (ground arith)
              | inr (s, u) ↦ (
                ground arith,
                ground (
                  arith,
                  resolve_case_ok st c.id c.row report actioned c.reviewer c.resolution
                      (codes "revoke") now u,
                ),
              )
            ]
  ]

  -- A report that is resolved with the decision to revoke, the call not throwing, was open and is
  -- now actioned by this reviewer and at this time, and its release is there and revoked: by this
  -- call, or by an earlier one.
  pub resolve_report_revokes :
      (v : Verdict) (now : ℕ) (kept : Releases.Store D) (st' : Store)
      → resolve_report l releases st v now ≡ (kept, st', none)
      → decided l (codes "revoke") (codes "dismiss") invalid_moderation_decision v.decision
        ≡ ok true
      → (id : Text) × (row : Case) × (row' : Case) × (key : ReleaseKey) × (release : Release D)
        × (case_id v.case_id ≡ ok id)
        × (Table.get st.cases id ≡ some row)
        × (Table.get st'.cases id ≡ some row')
        × (row'.state ≡ actioned)
        × (row'.resolved_at_ms ≡ some now)
        × (moderation_key l (raw_of row.key) ≡ ok key)
        × (Table.get kept.releases key ≡ some release)
        × (release.state ≡ Releases.revoked)
  unfolding set_resolved
  resolve_report_revokes v now kept st' h decision =
      let (c, q, k) = ruling_of v now h in
      let (i, found, d, named) = ruling_ok v q in
      let (a, e) = act_of c now (ok-injective (sym d ∙ decision)) k in
      let (release, there, gone) =
        act_ok c now (moderation_key-IsNormal l c.row.key c.key named) a in
      (
        c.id,
        c.row,
        set_resolved actioned c.reviewer c.resolution now c.row,
        c.key,
        release,
        i,
        found,
        (ap (λ (t : Table Text Case). Table.get t c.id) e
            ∙ rw (
              get-update st.cases c.id c.id (set_resolved actioned c.reviewer c.resolution now),
              (text_beq_iff c.id c.id).1 refl,
              found,
            )),
        refl,
        refl,
        named,
        there,
        gone,
      )
