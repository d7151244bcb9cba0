-- ===== src/Fdn/Broker/Life.antt =====
-- The edges of an enrollment's life, and how often the requests of it may have been sent.
use fabushi_backend.Prelude.{
  ℕ, ◌≤◌, ◌≡◌, refl, ◌∙◌, Bool, true, false, Option, none, some, arith, text_Eq,
}
use fabushi_backend.Fdn.Broker.Rows.{
  Status, redeeming, redeem_unknown, redeem_rejected, wrong_cell, redeemed, expired, mint_unknown,
  key_ready, binding, bind_unknown, bind_rejected, completed, Identity, Row,
}
use fabushi_backend.Fdn.Broker.Calls.{
  Await, redeems, mints, lists_keys, lists_nodes, binds, reads_cell, Next, waits,
}

-- The requests that must be sent at most once for a grant.
pub data Once : Type 0 where
  redemption minting binding_once : Once

abbrev pub is_once : Once → Await → ℕ
is_once redemption (redeems digest) = 1
is_once minting (mints id) = 1
is_once binding_once binds = 1
is_once k await = 0

abbrev pub issues : Once → Next → ℕ
issues k (waits p) = is_once k p.awaits
issues k next = 0

abbrev pub minting_of : Status → ℕ
minting_of redeeming = 0
minting_of s = 1

abbrev pub binding_of : Status → ℕ
binding_of binding = 1
binding_of bind_unknown = 1
binding_of bind_rejected = 1
binding_of completed = 1
binding_of s = 0

-- How many such requests may have been sent for a grant whose row this is.
abbrev pub spent : Once → Option Row → ℕ
spent k none = 0
spent redemption (some row) = 1
spent minting (some row) = minting_of row.status
spent binding_once (some row) = binding_of row.status

-- The status of a row whose call stands at an await.
abbrev pub fits : Await → Status → Bool
fits (redeems digest) redeeming = true
fits (mints id) redeemed = true
fits (lists_keys id raw) redeemed = true
fits lists_nodes key_ready = true
fits binds binding = true
fits reads_cell bind_unknown = true
fits await s = false

-- The edges of an enrollment's life.
infix 40 ◌⟶◌ ◌⟶*◌
pub data ◌⟶◌ : Status → Status → Type 0 where
  redeem_lost : redeeming ⟶ redeem_unknown
  redeem_refused : redeeming ⟶ redeem_rejected
  redeem_elsewhere : redeeming ⟶ wrong_cell
  redeem_done : redeeming ⟶ redeemed
  too_late : redeemed ⟶ expired
  mint_lost : redeemed ⟶ mint_unknown
  mint_done : redeemed ⟶ key_ready
  bind_begun : key_ready ⟶ binding
  bind_lost : binding ⟶ bind_unknown
  bind_refused : binding ⟶ bind_rejected
  bind_done : binding ⟶ completed
  bind_found : bind_unknown ⟶ completed

pub data ◌⟶*◌ : Status → Status → Type 0 where
  here : {s : Status} → s ⟶* s
  onward : {s t u : Status} → s ⟶ t → t ⟶* u → s ⟶* u

pub ruleset edges = (
  redeem_lost, redeem_refused, redeem_elsewhere, redeem_done, too_late, mint_lost, mint_done,
  bind_begun, bind_lost, bind_refused, bind_done, bind_found,
)

pub ⟶*-trans : {s t u : Status} → s ⟶* t → t ⟶* u → s ⟶* u
⟶*-trans here q = q
⟶*-trans (onward e p) q = onward e (⟶*-trans p q)

-- A row later in the life of an enrollment: of the same secret, with the identity that it has got,
-- and without the key once it is completed.
pub record Grows (row row' : Row) : Type 0 where
  pub secret : row'.secret_digest ≡ row.secret_digest
  pub identity : (id : Identity) → row.identity ≡ some id → row'.identity ≡ some id
  pub path : row.status ⟶* row'.status
  pub erased :
      (row.status ≡ completed → row.auth_key_envelope ≡ none)
      → row'.status ≡ completed
      → row'.auth_key_envelope ≡ none

pub Grows-refl : (row : Row) → Grows row row
Grows-refl row = record { secret = refl; identity = λ id h. h; path = here; erased = λ c. c }

pub Grows-trans : (a b c : Row) → Grows a b → Grows b c → Grows a c
Grows-trans a b c v w = record {
  secret = w.secret ∙ v.secret;
  identity = λ id h. w.identity id (v.identity id h);
  path = ⟶*-trans v.path w.path;
  erased = λ clean. w.erased (v.erased clean);
}

-- A row that appears is a new one, and none disappears.
abbrev pub Evolves : Option Row → Option Row → Type 0
Evolves none none = Unit {0}
Evolves none (some row') = (row'.status ≡ completed → row'.auth_key_envelope ≡ none)
Evolves (some row) none = ⊥
Evolves (some row) (some row') = Grows row row'

pub Evolves-refl : (o : Option Row) → Evolves o o
Evolves-refl none = tt
Evolves-refl (some row) = Grows-refl row

pub Grows-Evolves :
    (row row' : Row) (after : Option Row)
    → Grows row row'
    → Evolves (some row') after
    → Evolves (some row) after
Grows-Evolves row row' none grows gone = gone
Grows-Evolves row row' (some later) grows more = Grows-trans row row' later grows more

minting_of-⟶ : (s t : Status) → s ⟶ t → minting_of s ≤ minting_of t
minting_of-⟶ s t redeem_lost = ground arith
minting_of-⟶ s t redeem_refused = ground arith
minting_of-⟶ s t redeem_elsewhere = ground arith
minting_of-⟶ s t redeem_done = ground arith
minting_of-⟶ s t too_late = ground arith
minting_of-⟶ s t mint_lost = ground arith
minting_of-⟶ s t mint_done = ground arith
minting_of-⟶ s t bind_begun = ground arith
minting_of-⟶ s t bind_lost = ground arith
minting_of-⟶ s t bind_refused = ground arith
minting_of-⟶ s t bind_done = ground arith
minting_of-⟶ s t bind_found = ground arith

binding_of-⟶ : (s t : Status) → s ⟶ t → binding_of s ≤ binding_of t
binding_of-⟶ s t redeem_lost = ground arith
binding_of-⟶ s t redeem_refused = ground arith
binding_of-⟶ s t redeem_elsewhere = ground arith
binding_of-⟶ s t redeem_done = ground arith
binding_of-⟶ s t too_late = ground arith
binding_of-⟶ s t mint_lost = ground arith
binding_of-⟶ s t mint_done = ground arith
binding_of-⟶ s t bind_begun = ground arith
binding_of-⟶ s t bind_lost = ground arith
binding_of-⟶ s t bind_refused = ground arith
binding_of-⟶ s t bind_done = ground arith
binding_of-⟶ s t bind_found = ground arith

-- What is spent for a grant only grows on an edge.
pub spent-⟶ :
    (row row' : Row) (k : Once)
    → row.status ⟶ row'.status
    → spent k (some row) ≤ spent k (some row')
spent-⟶ row row' redemption e = omega arith
spent-⟶ row row' minting e = minting_of-⟶ row.status row'.status e
spent-⟶ row row' binding_once e = binding_of-⟶ row.status row'.status e
