-- ===== src/Tests/Advertising.antt =====
-- Advertisement events of one campaign, and the theorems on them.
use fabushi_backend.Prelude.{
  ℕ, ◌+◌, ◌*◌, ◌≤◌, ◌<◌, ◌≡◌, refl, inl, inr, arith, true, List, [], ◌∷◌, none, some, Bool-cases,
  text_Eq, ◌==◌, text_beq, ok,
}
use Prim.Native.Nat.{◌/◌}
use fabushi_backend.Text.{Text, codes, trim, text_or}
use fabushi_backend.Table
use fabushi_backend.Money.Amounts.{
  natural, Doubles, assert_minor_amount, bps, validate_two_party_split, allocate_two_party_split,
  click, cpc,
}
use fabushi_backend.Money.Rows.{Campaign, Placement, Ledger, Host, Input}
use fabushi_backend.Money.Ads.{Plan, duplicate, planned, check}
use fabushi_backend.Money.Batches.{written, post}
use fabushi_backend.Table.{Table, get-update}
use fabushi_backend.Money.Checks.{allocate_two_party_split-exact}
use fabushi_backend.Money.Histories.{
  billed, Service, Move, checks, posts, run, run_alone, given, taken, AreWithin,
}
use fabushi_backend.Money.Budgets.{run-AreWithin}
use fabushi_backend.Money.Checks.{check-post}
use fabushi_backend.Money.Alone.{uses_of, IsExact, billed-run_alone, uses_of-run_alone}

abbrev pub exact_doubles : Doubles
exact_doubles = record {
  plus = ◌+◌;
  times = ◌*◌;
  floor_div = ◌/◌;
  plus_exact = λ a b h. refl;
  plus_large = λ a b h. h;
  times_exact = λ a b h. refl;
  floor_div_exact = λ a d h k. refl;
}

abbrev host : Host
host = record { num = exact_doubles; upper = λ s. s; accepts = λ old new. true }

abbrev campaign : Campaign
campaign = record {
  advertiser_id = codes "adv";
  status = codes "active";
  model = cpc;
  bid_amount = natural 60;
  currency = codes "CNY";
  total_budget = 100;
  spent_amount = 0;
  starts_at = 1;
  ends_at = none;
}

abbrev placement : Placement
placement = record {
  mini_app_id = codes "app";
  developer_id = codes "dev";
  status = codes "active";
  developer_share_bps = 7000;
}

abbrev ledger : Ledger
ledger = record {
  campaigns = (codes "c1", campaign) ∷ [];
  placements = (codes "p1", placement) ∷ [];
  rules = [];
  accounts = [];
  ad_events = [];
  lines = [];
  revenue = [];
}

abbrev click_with : Text → Input
click_with key = record {
  campaign_id = some (codes "c1");
  placement_id = some (codes "p1");
  idempotency_key = some key;
  event_type = some (codes "click");
  quantity = none;
  occurred_at = none;
}

abbrev started : Service
started = record { ledger = ledger; plans = [] }

-- Two calls are checked before either is written: both are billed, and the campaign spends once.
abbrev overlapping : List Move
overlapping =
    checks (click_with (codes "k1")) (codes "1") 10
    ∷ checks (click_with (codes "k2")) (codes "2") 10
    ∷ posts 1
    ∷ posts 0
    ∷ []

billed_over_budget : billed (codes "c1") (run host started overlapping).ledger.ad_events ≡ 120
unfolding billed run text_beq trim text_or Table.get
billed_over_budget = refl

abbrev spent_at : Table Text Campaign → ℕ
spent_at campaigns = elim (Table.get campaigns (codes "c1")) [ none ↦ 0 | some c ↦ c.spent_amount ]

spent_once : spent_at (run host started overlapping).ledger.campaigns ≡ 60
unfolding run text_beq Table.get trim text_or Table.update
spent_once = refl

allocate_two_party_split-exact_example :
    (g : ℕ) × (p : ℕ) × (d : ℕ) × (natural 101 ≡ natural g)
    × (natural 3000 ≡ natural p)
    × (natural 7000 ≡ natural d)
    × (0 < g)
    × (p + d ≡ 10000)
    × (30 + 71 ≡ g)
    × (30 * 10000 ≤ g * p)
    × (g * p < (30 + 1) * 10000)
unfolding allocate_two_party_split assert_minor_amount validate_two_party_split bps
allocate_two_party_split-exact_example =
    allocate_two_party_split-exact exact_doubles (natural 101) (natural 3000) (natural 7000)
      (record { gross_amount = 101; platform_amount = 30; developer_amount = 71 }) refl
      (omega arith)

ledger_within : AreWithin ledger.campaigns
unfolding Table.get text_beq
ledger_within id c there = elim (Bool-cases (codes "c1" == id)) [
  | inl same ↦ ground (arith, there, same)
  | inr differs ↦ absurd (ground (arith, there, differs))
]

run-AreWithin_example :
    AreWithin (run host started overlapping).ledger.campaigns
    × (given (run host started overlapping).ledger.lines
        ≡ taken (run host started overlapping).ledger.lines)
unfolding given taken
run-AreWithin_example = run-AreWithin host ledger overlapping ledger_within refl

ledger_IsExact : IsExact ledger
unfolding billed uses_of Table.get text_beq
ledger_IsExact = record {
  within = ledger_within;
  spent = λ id c there. elim (Bool-cases (codes "c1" == id)) [
    | inl same ↦ ground (arith, there, same)
    | inr differs ↦ absurd (ground (arith, there, differs))
  ];
  once = λ key. omega arith;
}

abbrev calls : List (Input × Text × ℕ)
calls =
    (click_with (codes "k1"), codes "1", 10)
    ∷ (click_with (codes "k1"), codes "2", 11)
    ∷ (click_with (codes "k2"), codes "3", 12)
    ∷ []

billed-run_alone_example :
    (billed (codes "c1") (run_alone host ledger calls).ad_events ≡ 60)
    × (billed (codes "c1") (run_alone host ledger calls).ad_events ≤ 100)
unfolding run_alone Table.get text_beq trim text_or Table.update
billed-run_alone_example =
    billed-run_alone host ledger calls (codes "c1") (record campaign { spent_amount = 60 })
      ledger_IsExact refl

uses_of-run_alone_example : uses_of (codes "k1") (run_alone host ledger calls).ad_events ≤ 1
uses_of-run_alone_example = uses_of-run_alone host ledger calls (codes "k1") ledger_IsExact

abbrev first_plan : Plan
first_plan = record {
  event = record {
    ad_event_id = codes "ad:1";
    idempotency_key = codes "k1";
    campaign_id = codes "c1";
    placement_id = codes "p1";
    event_type = click;
    billable_amount = 60;
  };
  currency = codes "CNY";
  advertiser_id = codes "adv";
  developer_id = codes "dev";
  shares = record { gross_amount = 60; platform_amount = 18; developer_amount = 42 };
  rule_id = none;
}

first_made : check host ledger (click_with (codes "k1")) (codes "1") 10 ≡ ok (planned first_plan)
unfolding check text_beq trim text_or Table.get
first_made = refl

check-post_example :
    check host (written ledger first_plan) (click_with (codes "k1")) (codes "2") 11
    ≡ ok (duplicate (codes "ad:1"))
unfolding post
check-post_example =
    check-post host ledger (written ledger first_plan) (click_with (codes "k1")) (codes "1")
      (codes "2") 10 11 first_plan first_made refl
