-- ===== src/Market/Lifecycle.antt =====
-- The life of one release row, whatever is called.
use mathlib.Core.Path.{subst}
use fabushi_backend.Prelude.{
  ℕ, ◌≡◌, refl, sym, ◌∙◌, ap, inl, inr, Bool, true, false, List, [], ◌∷◌, Option, none, some,
  Bool-cases, Result, ok, err, after, if◌then◌else◌,
}
use fabushi_backend.Code.{Code}
use fabushi_backend.Text.{Text, Locale}
use fabushi_backend.Table
use fabushi_backend.Table.{Table, get-update, get-insert}
use fabushi_backend.Identity.{ReleaseKey, key_Eq, key_beq, key_beq_iff}
use fabushi_backend.Release.Rows.{
  State, draft, pending_review, approved, rejected, revoked, Release, Store, Entries, new_release,
  import_actor, set_submitted, set_reviewed, set_revoked,
}
use fabushi_backend.Release.Drafts.{import_reviewed}
use fabushi_backend.Release.Effects.{
  Edit, submit_ok, review_ok, yank_ok, revoke_ok, create_draft_ok, import_ok,
}
use fabushi_backend.Artifact.Names.{Platform}
use fabushi_backend.Signing.Rows as Signing
use fabushi_backend.Market.{
  Market, Call, publishes, drafts, imports, submits, reviews, yanks, revokes, uploads, registers,
  registers_for_review, attaches, scans, starts, revokes_key, step, run, gate_of, sign_of,
  after_review,
}

-- The arrows of the state machine.
pub data Transition : State → State → Type 0 where
  submit_draft : Transition draft pending_review
  approve : Transition pending_review approved
  reject : Transition pending_review rejected
  withdraw : Transition approved revoked

pub data Route : State → State → Type 0 where
  stay : {s : State} → Route s s
  along : {s t u : State} → Route s t → Transition t u → Route s u

-- What never changes of a row, and how its state moves.
pub record Evolves {D : Type 0} (row row' : Release D) : Type 0 where
  pub descriptor : row'.descriptor ≡ row.descriptor
  pub descriptor_digest : row'.descriptor_digest ≡ row.descriptor_digest
  pub publisher_account_id : row'.publisher_account_id ≡ row.publisher_account_id
  pub created_at_ms : row'.created_at_ms ≡ row.created_at_ms
  pub state : Route row.state row'.state

Evolves-refl : {D : Type 0} (row : Release D) → Evolves row row
Evolves-refl row = record {
  descriptor = refl;
  descriptor_digest = refl;
  publisher_account_id = refl;
  created_at_ms = refl;
  state = stay;
}

Route-trans : {s t u : State} → Route s t → Route t u → Route s u
Route-trans r stay = r
Route-trans r (along q x) = along (Route-trans r q) x

Evolves-trans : {D : Type 0} {a b c : Release D} → Evolves a b → Evolves b c → Evolves a c
Evolves-trans f g = record {
  descriptor = g.descriptor ∙ f.descriptor;
  descriptor_digest = g.descriptor_digest ∙ f.descriptor_digest;
  publisher_account_id = g.publisher_account_id ∙ f.publisher_account_id;
  created_at_ms = g.created_at_ms ∙ f.created_at_ms;
  state = Route-trans f.state g.state;
}

evolved_by_state : {D : Type 0} {a b c : Release D} → some a ≡ some b → Evolves a c → Evolves b c
evolved_by_state {a} {b} {c} e ev = let p : a ≡ b = cc in subst (λ r. Evolves r c) p ev

-- Every row that is there stays there and evolves.
abbrev pub Lives : {D : Type 0} → Store D → Store D → Type 0
Lives {D} st st' =
    (key : ReleaseKey) (row : Release D)
    → Table.get st.releases key ≡ some row
    → (row' : Release D) × (Table.get st'.releases key ≡ some row') × Evolves row row'

Lives-refl : {D : Type 0} (st : Store D) → Lives st st
Lives-refl st key row there = (row, there, Evolves-refl row)

module _ {D : Type 0} (st st' : Store D) where
  -- one row is rewritten
  edit-Lives :
      (key : ReleaseKey) (f : Release D → Release D) (row : Release D)
      → Table.get st.releases key ≡ some row
      → Evolves row (f row)
      → st'.releases ≡ Table.update st.releases key f
      → Lives st st'
  edit-Lives key f row found ev e j r there = elim (Bool-cases (key_beq key j)) [
    | inl same ↦
        let same_key = (key_beq_iff key j).0 same in
        (
          f row,
          rw (e, get-update st.releases key j f, same, ← same_key, found),
          evolved_by_state (sym found ∙ ap (Table.get st.releases) same_key ∙ there) ev,
        )
    | inr other ↦ (r, rw (e, get-update st.releases key j f, other) there, Evolves-refl r)
  ]

  insert-Lives :
      (key : ReleaseKey) (row : Release D)
      → Table.get st.releases key ≡ none
      → st'.releases ≡ Table.insert st.releases key row
      → Lives st st'
  insert-Lives key row absent e j r there = elim (Bool-cases (key_beq key j)) [
    | inl same ↦ cc (sym absent ∙ ap (Table.get st.releases) ((key_beq_iff key j).0 same) ∙ there)
    | inr other ↦ (r, rw (e, get-insert st.releases key j row, other) there, Evolves-refl r)
  ]

-- The rewrites of the statements.
module _ {D : Type 0} (row : Release D) where
  submit-Evolves : (now : ℕ) → row.state ≡ draft → Evolves row (set_submitted now row)
  unfolding set_submitted
  submit-Evolves now e = record {
    descriptor = refl;
    descriptor_digest = refl;
    publisher_account_id = refl;
    created_at_ms = refl;
    state = rw e (along stay submit_draft);
  }

  decision_arrows :
      (decision : Bool) → Route pending_review (if decision then approved else rejected)
  decision_arrows true = along stay approve
  decision_arrows false = along stay reject

  review-Evolves :
      (decision : Bool) (reviewer notes : Text) (now : ℕ)
      → row.state ≡ pending_review
      → Evolves row (set_reviewed (if decision then approved else rejected) reviewer notes now row)
  unfolding set_reviewed
  review-Evolves decision reviewer notes now e = record {
    descriptor = refl;
    descriptor_digest = refl;
    publisher_account_id = refl;
    created_at_ms = refl;
    state = rw e (decision_arrows decision);
  }

  revoke-Evolves :
      (actor notes : Text) (now : ℕ)
      → row.state ≡ approved
      → Evolves row (set_revoked actor notes now row)
  unfolding set_revoked
  revoke-Evolves actor notes now e = record {
    descriptor = refl;
    descriptor_digest = refl;
    publisher_account_id = refl;
    created_at_ms = refl;
    state = rw e (along stay withdraw);
  }

module _ {D : Type 0} (st : Store D) where
  Lives-after :
      (r : Result Code (Store D))
      → ((st' : Store D) → r ≡ ok st' → Lives st st')
      → Lives st (after st r)
  Lives-after (ok st') f = f st' refl
  Lives-after (err e) f = Lives-refl st

  edited :
      (st' : Store D) {s : State} (key : ReleaseKey) (f : Release D → Release D)
      → ((row : Release D) → row.state ≡ s → Evolves row (f row))
      → Edit st st' s f key
      → Lives st st'
  edited st' key f ev (row, found, state, e) = edit-Lives st st' key f row found (ev row state) e

Lives-after_review :
    {D : Type 0} (m : Market D) (r : Result Code (Store D × Signing.Store))
    → ((st' : Store D) (s' : Signing.Store) → r ≡ ok (st', s') → Lives m.releases st')
    → Lives m.releases (after_review m r).releases
unfolding after_review
Lives-after_review m (ok (st', s')) f = f st' s' refl
Lives-after_review m (err e) f = Lives-refl m.releases

-- a new row that is submitted at once
imported :
    {D : Type 0} (st st' : Store D) (key : ReleaseKey) (row : Release D) (now : ℕ)
    → Table.get st.releases key ≡ none
    → st'.releases ≡ Table.update (Table.insert st.releases key row) key (set_submitted now)
    → Lives st st'
imported st st' key row now absent e j r there = elim (Bool-cases (key_beq key j)) [
  | inl same ↦ cc (sym absent ∙ ap (Table.get st.releases) ((key_beq_iff key j).0 same) ∙ there)
  | inr other ↦ (
    r,
    rw (e, get-update (Table.insert st.releases key row) key j (set_submitted now), other)
        (rw (get-insert st.releases key j row, other) there),
    Evolves-refl r,
  )
]

module _ (l : Locale) (p : Platform) (en : Entries) where
  import-Lives :
      (st st' : Store en.Descriptor) (reviewer : Option Text) (input : en.Input) (now : ℕ)
      → import_reviewed l en st reviewer input now ≡ ok st'
      → Lives st st'
  import-Lives st st' reviewer input now h =
      let (n, d, key, s, c) = import_ok l en st reviewer input now h in
      elim c [
        | inl same ↦ rw same (Lives-refl st)
        | inr (inl edit) ↦
            edited st st' key (set_submitted now) (λ row. submit-Evolves row now) edit
        | inr (inr (absent, e)) ↦
            imported st st' key (new_release d (en.digest d) (import_actor reviewer) now) now absent
              e
      ]

  pub step-Lives :
      (m : Market en.Descriptor) (now : ℕ) (c : Call en.Input)
      → Lives m.releases (step l p en m (now, c)).releases
  unfolding step
  step-Lives m now (publishes r) = Lives-refl m.releases
  step-Lives m now (drafts actor input) = Lives-after m.releases _ λ st' h.
      let (n, d, key, s, absent, e) =
        create_draft_ok l en m.releases m.publishers actor input now h in
      insert-Lives m.releases st' key _ absent e
  step-Lives m now (imports reviewer input) =
      Lives-after m.releases _ λ st' h. import-Lives m.releases st' reviewer input now h
  step-Lives m now (submits actor raw) = Lives-after m.releases _ λ st' h.
      let (key, _, edit) = submit_ok l m.releases m.publishers actor raw now h in
      edited m.releases st' key (set_submitted now) (λ row. submit-Evolves row now) edit
  step-Lives m now (reviews decision reviewer notes raw) = Lives-after_review m _ λ st' s' h.
      let (key, _, _, edit, _, _, _) =
        review_ok l m.releases m.signing (some (gate_of l p en m.artifacts))
          (some (sign_of l p en m.signing now)) decision reviewer notes raw now h in
      edited m.releases st' key _ (λ row. review-Evolves row decision _ _ now) edit
  step-Lives m now (yanks actor notes raw) = Lives-after m.releases _ λ st' h.
      let (key, _, edit) = yank_ok l m.releases m.publishers actor notes raw now h in
      edited m.releases st' key _ (λ row. revoke-Evolves row _ _ now) edit
  step-Lives m now (revokes reviewer notes raw) = Lives-after m.releases _ λ st' h.
      let (key, _, edit) = revoke_ok l m.releases reviewer notes raw now h in
      edited m.releases st' key _ (λ row. revoke-Evolves row _ _ now) edit
  step-Lives m now (uploads actor raw u) = Lives-refl m.releases
  step-Lives m now (registers actor raw e) = Lives-refl m.releases
  step-Lives m now (registers_for_review reviewer raw e) = Lives-refl m.releases
  step-Lives m now (attaches actor raw id url) = Lives-refl m.releases
  step-Lives m now (scans reviewer raw r) = Lives-refl m.releases
  step-Lives m now (starts signer) = Lives-refl m.releases
  step-Lives m now (revokes_key id epoch reason) = Lives-refl m.releases

  pub run-Lives :
      (m : Market en.Descriptor) (cs : List (ℕ × Call en.Input))
      → Lives m.releases (run l p en m cs).releases
  unfolding run
  run-Lives m [] key row there = (row, there, Evolves-refl row)
  run-Lives m ((now, c) ∷ cs) key row there =
      let (r, e, ev) = step-Lives m now c key row there in
      let (r', e', ev') = run-Lives (step l p en m (now, c)) cs key r e in
      (r', e', Evolves-trans ev ev')

  -- Over any history of requests, valid or not, a release that is there stays there under its key,
  -- with the same descriptor, descriptor digest, publisher account and time of creation, and its
  -- state moves along a route of the machine: draft to pending review, pending review to approved
  -- or rejected, approved to revoked.
  pub release_life :
      (m : Market en.Descriptor) (cs : List (ℕ × Call en.Input)) (key : ReleaseKey)
      (row : Release en.Descriptor)
      → Table.get m.releases.releases key ≡ some row
      → (row' : Release en.Descriptor) × (Table.get (run l p en m cs).releases.releases key
          ≡ some row')
        × Evolves row row'
  release_life m cs key row there = run-Lives m cs key row there
