-- ===== src/Market/Immutable.antt =====
-- The artifacts of an approved release never change.
use fabushi_backend.Prelude.{
  ℕ, ◌≡◌, refl, ◌∙◌, ◌⊎◌, true, List, [], ◌∷◌, Option-cases, inl, inr, some, arith,
}
use fabushi_backend.Text.{Locale}
use fabushi_backend.Table
use fabushi_backend.Identity.{ReleaseKey, key_Eq}
use fabushi_backend.Release.Rows.{State, approved, revoked, Release, Entries}
use fabushi_backend.Artifact.Rows.{rows_of}
use fabushi_backend.Artifact.Names.{Platform}
use fabushi_backend.Market.{Market, Call, step, run, empty_market}
use fabushi_backend.Market.Lifecycle.{
  Transition, submit_draft, approve, reject, withdraw, Route, stay, along, step-Lives,
}
use fabushi_backend.Market.Steps.{was_approved, was_approved_at, step_rows}
use fabushi_backend.Market.Approval.{IsClean, step-IsClean, run-IsClean, IsClean-empty}

was_approved-Transition :
    {s t : State} → Transition s t → was_approved s ≡ true → was_approved t ≡ true
was_approved-Transition submit_draft h = cc
was_approved-Transition approve h = refl
was_approved-Transition reject h = cc
was_approved-Transition withdraw h = refl

was_approved-Route : {s t : State} → Route s t → was_approved s ≡ true → was_approved t ≡ true
was_approved-Route stay h = h
was_approved-Route (along r x) h = was_approved-Transition x (was_approved-Route r h)

module _ (l : Locale) (p : Platform) (en : Entries) where
  step_approved :
      (m : Market en.Descriptor) (now : ℕ) (c : Call en.Input) (key : ReleaseKey)
      → was_approved_at m.releases key ≡ true
      → was_approved_at (step l p en m (now, c)).releases key ≡ true
  step_approved m now c key h = elim (Option-cases (Table.get m.releases.releases key)) [
    | inl absent ↦ absurd (ground arith)
    | inr (row, there) ↦
        let (row', there', ev) = step-Lives l p en m now c key row there in
        rw (was_approved_at, there') (was_approved-Route ev.state (ground arith))
  ]

  run_rows :
      (m : Market en.Descriptor) (cs : List (ℕ × Call en.Input)) (key : ReleaseKey)
      → IsClean m
      → was_approved_at m.releases key ≡ true
      → rows_of (run l p en m cs).artifacts.artifacts key ≡ rows_of m.artifacts.artifacts key
  unfolding run
  run_rows m [] key v h = refl
  run_rows m ((now, c) ∷ cs) key v h =
      run_rows (step l p en m (now, c)) cs key (step-IsClean l p en m now c v)
        (step_approved m now c key h)
      ∙ step_rows l p en m now c key (v.scanned key h).1 h

  -- Once a history of requests to an empty marketplace has approved a release, or approved and
  -- withdrawn it, no further history changes its artifacts: none is added or removed, and each
  -- keeps its digest, size, address and scan verdict.
  pub approved_immutable :
      (max_bytes : ℕ) (cs later : List (ℕ × Call en.Input)) (key : ReleaseKey)
      (row : Release en.Descriptor)
      → let m = run l p en (empty_market max_bytes) cs in
        Table.get m.releases.releases key ≡ some row
        → (row.state ≡ approved) ⊎ (row.state ≡ revoked)
        → rows_of (run l p en m later).artifacts.artifacts key ≡ rows_of m.artifacts.artifacts key
  approved_immutable max_bytes cs later key row there state =
      run_rows (run l p en (empty_market max_bytes) cs) later key
        (run-IsClean l p en (empty_market max_bytes) cs (IsClean-empty l p en max_bytes))
        (ground arith)
