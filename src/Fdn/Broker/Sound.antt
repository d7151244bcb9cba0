-- ===== src/Fdn/Broker/Sound.antt =====
-- What a history in which no call begins while another is under way makes of the service.
use fabushi_backend.Fdn.Broker.Legal.Resumes.{
  start-IsLegal, complete-IsLegal, fits-status_of, resume-IsLegal,
}
use fabushi_backend.Prelude.{
  ℕ, zero, suc, ◌+◌, ◌≤◌, ◌≡◌, refl, sym, ap, ◌∙◌, List, [], ◌∷◌, Option, none, some, inl, inr, ◌⊎◌,
  arith, Bool-cases, Option-cases, text_Eq, ◌==◌, if◌then◌else◌, text_beq_iff,
}
use fabushi_backend.Text.{Text}
use fabushi_backend.Table
use fabushi_backend.Fdn.Broker.Rows.{Row, State, Broker}
use fabushi_backend.Fdn.Broker.Calls.{Await, Pending, returned, threw, waits, Piece}
use fabushi_backend.Fdn.Broker.Starting.{start}
use fabushi_backend.Fdn.Broker.Completing.{complete}
use fabushi_backend.Fdn.Broker.Life.{
  Once, is_once, issues, spent, Evolves, Grows-Evolves, Evolves-refl,
}
use fabushi_backend.Fdn.Broker.Legal.{IsReady, IsLegal}
use fabushi_backend.Fdn.Broker.Service.{
  Answer, resume, Service, idle, Event, starts, completes, answers, stops, begins_at, settle, pick,
  answer_task, step, step_alone, run_alone,
}

-- The requests that were sent at most once, of those for a grant.
abbrev pub sent_of : Once → Text → List (Text × Await) → ℕ
sent_of k grant [] = 0
sent_of k grant ((j, a) ∷ sent) = (if j == grant then is_once k a else 0) + sent_of k grant sent

-- What a history has made of a service that began with a file: one call at most is under way, the
-- requests that must be sent once are paid for by the row of their grant, over those sent before, and
-- each row has grown.
pub record IsSound (file : State) (sent : List (Text × Await)) (s : Service) : Type 0 where
  pub alone : (s.tasks ≡ []) ⊎ ((p : Pending) × (s.tasks ≡ p ∷ []) × (p.state ≡ s.file) × IsReady p)
  pub paid :
      (k : Once) (grant : Text)
      → sent_of k grant s.sent + spent k (Table.get file grant)
        ≤ spent k (Table.get s.file grant) + sent_of k grant sent
  pub life : (grant : Text) → Evolves (Table.get file grant) (Table.get s.file grant)

Evolves-trans : (x y z : Option Row) → Evolves x y → Evolves y z → Evolves x z
Evolves-trans none none z e f = f
Evolves-trans none (some a) none e f = absurd f
Evolves-trans none (some a) (some c) e f = f.erased e
Evolves-trans (some a) none z e f = absurd e
Evolves-trans (some a) (some c) z e f = Grows-Evolves a c z e f

-- what a legal piece pays
paid_for :
    (file : State) (sent : List (Text × Await)) (s : Service) (grant : Text) (piece : Piece)
    → IsSound file sent s
    → IsLegal grant s.file piece
    → (k : Once) (g : Text)
    → (if grant == g then issues k piece.1 else 0) + sent_of k g s.sent + spent k (Table.get file g)
      ≤ spent k (Table.get piece.0 g) + sent_of k g sent
paid_for file sent s grant piece sound legal k g = elim (Bool-cases (grant == g)) [
  | inl same ↦
      let e : grant ≡ g = (text_beq_iff grant g).0 same in
      let within = legal.budget k in
      let before = sound.paid k grant in rw (same, ← e) (omega (arith, within, before))
  | inr other ↦ rw (other, legal.others g other) (omega (arith, sound.paid k g))
]

lived :
    (file : State) (sent : List (Text × Await)) (s : Service) (grant : Text) (piece : Piece)
    → IsSound file sent s
    → IsLegal grant s.file piece
    → (g : Text) → Evolves (Table.get file g) (Table.get piece.0 g)
lived file sent s grant piece sound legal g = elim (Bool-cases (grant == g)) [
  | inl same ↦ rw (← (text_beq_iff grant g).0 same) (
      Evolves-trans (Table.get file grant) (Table.get s.file grant) (Table.get piece.0 grant)
        (sound.life grant) legal.evolves)
  | inr other ↦ rw (legal.others g other) (sound.life g)
]

settle-IsSound :
    (file : State) (sent : List (Text × Await)) (s : Service) (grant : Text) (piece : Piece)
    → IsSound file sent s
    → IsLegal grant s.file piece
    → IsSound file sent (settle s [] piece)
unfolding settle
settle-IsSound file sent s grant (new, waits p) sound legal = record {
  alone = inr (p, refl, (legal.ready p refl).0, (legal.ready p refl).2);
  paid = λ k g.
      let within = paid_for file sent s grant (new, waits p) sound legal k g in
      let same : p.grant ≡ grant = (legal.ready p refl).1 in rw (same) within;
  life = lived file sent s grant (new, waits p) sound legal;
}
settle-IsSound file sent s grant (new, returned r) sound legal = record {
  alone = inl refl;
  paid = λ k g. ground (
    arith,
    paid_for file sent s grant (new, returned r) sound legal k g,
    Bool-cases (grant == g),
  );
  life = lived file sent s grant (new, returned r) sound legal;
}
settle-IsSound file sent s grant (new, threw e) sound legal = record {
  alone = inl refl;
  paid = λ k g.
      ground
        (arith, paid_for file sent s grant (new, threw e) sound legal k g, Bool-cases (grant == g));
  life = lived file sent s grant (new, threw e) sound legal;
}

-- a service whose call is gone
IsSound-ends :
    (file : State) (sent : List (Text × Await)) (s : Service)
    → IsSound file sent s
    → IsSound file sent (record s { tasks = [] })
IsSound-ends file sent s sound = record { alone = inl refl; paid = sound.paid; life = sound.life }

-- A call begins where none is under way.
begins-IsSound :
    (file : State) (sent : List (Text × Await)) (s : Service) (tasks : List Pending) (piece : Piece)
    → s.tasks ≡ tasks
    → IsSound file sent s
    → (grant : Text) × IsLegal grant s.file piece
    → IsSound file sent (begins_at tasks s (settle s tasks piece))
begins-IsSound file sent s [] piece none_under_way sound (grant, legal) =
    settle-IsSound file sent s grant piece sound legal
begins-IsSound file sent s (p ∷ ps) piece under_way sound legal = sound

answer_task-IsSound :
    (b : Broker) (file : State) (sent : List (Text × Await)) (s : Service) (p : Pending)
    (answer : Answer) (now : ℕ)
    → IsSound file sent s
    → p.state ≡ s.file
    → IsReady p
    → IsSound file sent (answer_task b s (some (p, [])) answer now)
unfolding answer_task
answer_task-IsSound b file sent s p answer now sound same ready =
    elim (Option-cases (resume b s.file p.state p.grant p.awaits answer now)) [
      | inl nothing ↦ rw (answer_task, nothing) sound
      | inr (piece, went) ↦
          rw (answer_task, went)
            (settle-IsSound file sent s p.grant piece sound (
              resume-IsLegal b s.file p.grant ready.row p.awaits answer now piece
                (rw (← same) ready.there) (fits-status_of p.awaits ready.row.status ready.at)
                ready.fresh
                (ap (λ x. resume b s.file x p.grant p.awaits answer now) (sym same) ∙ went)))
    ]

pick-IsSound :
    (b : Broker) (file : State) (sent : List (Text × Await)) (s : Service) (n : ℕ)
    (tasks : List Pending) (answer : Answer) (now : ℕ)
    → IsSound file sent s
    → (tasks ≡ []) ⊎ ((p : Pending) × (tasks ≡ p ∷ []) × (p.state ≡ s.file) × IsReady p)
    → IsSound file sent (answer_task b s (pick n tasks) answer now)
unfolding answer_task pick
pick-IsSound b file sent s n [] answer now sound alone = sound
pick-IsSound b file sent s zero (q ∷ tasks) answer now sound (inl none_there) =
    absurd (ground arith)
pick-IsSound b file sent s zero (q ∷ tasks) answer now sound (inr (p, one, same, ready)) =
    let e : q ≡ p = ground arith in
    let no_more : tasks ≡ [] = ground arith in
    rw (e, no_more) (answer_task-IsSound b file sent s p answer now sound same ready)
pick-IsSound b file sent s (suc n) (q ∷ tasks) answer now sound (inl none_there) =
    absurd (ground arith)
pick-IsSound b file sent s (suc n) (q ∷ tasks) answer now sound (inr (p, one, same, ready)) =
    let no_more : tasks ≡ [] = ground arith in rw (no_more) sound

pub step_alone-IsSound :
    (b : Broker) (file : State) (sent : List (Text × Await)) (s : Service) (e : ℕ × Event)
    → IsSound file sent s
    → IsSound file sent (step_alone b s e)
unfolding step_alone step
step_alone-IsSound b file sent s (now, starts request) sound =
    begins-IsSound file sent s s.tasks (start b s.file request now) refl sound
      (start-IsLegal b s.file request now)
step_alone-IsSound b file sent s (now, completes request) sound =
    begins-IsSound file sent s s.tasks (complete s.file request) refl sound
      (complete-IsLegal s.file request)
step_alone-IsSound b file sent s (now, answers n answer) sound =
    pick-IsSound b file sent s n s.tasks answer now sound sound.alone
step_alone-IsSound b file sent s (now, stops) sound = IsSound-ends file sent s sound

pub idle-IsSound : (file : State) → IsSound file [] (idle file)
idle-IsSound file = record {
  alone = inl refl;
  paid = λ k g. omega arith;
  life = λ g. Evolves-refl (Table.get file g);
}

pub run_alone-IsSound :
    (b : Broker) (file : State) (sent : List (Text × Await)) (s : Service) (es : List (ℕ × Event))
    → IsSound file sent s
    → IsSound file sent (run_alone b s es)
unfolding run_alone
run_alone-IsSound b file sent s [] sound = sound
run_alone-IsSound b file sent s (e ∷ es) sound =
    run_alone-IsSound b file sent (step_alone b s e) es (step_alone-IsSound b file sent s e sound)

-- A service in the middle of a history is one that begins with its file.
pub IsSound-here :
    (file : State) (sent : List (Text × Await)) (s : Service)
    → IsSound file sent s
    → IsSound s.file s.sent s
IsSound-here file sent s sound = record {
  alone = sound.alone;
  paid = λ k g. omega arith;
  life = λ g. Evolves-refl (Table.get s.file g);
}
