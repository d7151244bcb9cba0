-- ===== src/Table.antt =====
-- A SQLite table with a primary key, as the prepared statements of the stores use it. No
-- statement reads rows in the order of insertion, so the order of the list has no meaning.
use fabushi_backend.Prelude.{
  ◌≡◌, refl, Option, none, some, List, [], ◌∷◌, arith, Eq, ◌==◌, Bool-cases, ◌⊎◌, inl, inr,
  if◌then◌else◌,
}
use mathlib.Core.Option

abbrev pub Table {ℓ κ} : Type ℓ → Type κ → Type (ℓ ⊔ κ)
Table K V = List (K × V)

module _ {ℓ κ} {K : Type ℓ} {V : Type κ} ⦃e : Eq K⦄ where
  -- SELECT … WHERE key = ? LIMIT 1
  unfoldable pub get : Table K V → K → Option V
  get [] k = none
  get ((j, v) ∷ t) k = if j == k then some v else get t k

  -- INSERT, where no row has the key yet
  unfoldable pub insert : Table K V → K → V → Table K V
  insert t k v = (k, v) ∷ t

  -- UPDATE … SET … WHERE key = ?
  unfoldable pub update : Table K V → K → (V → V) → Table K V
  update [] k f = []
  update ((j, v) ∷ t) k f = (j, (if j == k then f v else v)) ∷ update t k f

  -- DELETE … WHERE key = ?
  unfoldable pub delete : Table K V → K → Table K V
  delete [] k = []
  delete ((j, v) ∷ t) k = if j == k then delete t k else (j, v) ∷ delete t k

  -- INSERT … ON CONFLICT(key) DO UPDATE
  unfoldable pub upsert : Table K V → K → V → Table K V
  unfolding delete
  upsert t k v = (k, v) ∷ delete t k

  pub get-insert :
      (t : Table K V) (k j : K) (v : V)
      → get (insert t k v) j ≡ (if k == j then some v else get t j)
  unfolding get insert
  get-insert t k j v = refl

  pub get-update :
      (t : Table K V) (k j : K) (f : V → V)
      → get (update t k f) j ≡ (if k == j then Option.map f (get t j) else get t j)
  unfolding get update
  get-update [] k j f = ground arith
  get-update ((i, v) ∷ t) k j f =
      ground (arith, get-update t k j f, e.beq_iff i k, e.beq_iff i j, e.beq_iff k j)

  pub get-delete :
      (t : Table K V) (k j : K) → get (delete t k) j ≡ (if k == j then none else get t j)
  unfolding get delete
  get-delete [] k j = ground arith
  get-delete ((i, v) ∷ t) k j =
      ground (arith, get-delete t k j, e.beq_iff i k, e.beq_iff i j, e.beq_iff k j)

  pub get-upsert :
      (t : Table K V) (k j : K) (v : V)
      → get (upsert t k v) j ≡ (if k == j then some v else get t j)
  unfolding get upsert
  get-upsert t k j v = ground (arith, get-delete t k j)

  -- A row behind an upsert is the new one, or was there.
  pub get-upsert_cases :
      (t : Table K V) (k j : K) (v w : V)
      → get (upsert t k v) j ≡ some w
      → ((k ≡ j) × (v ≡ w)) ⊎ (get t j ≡ some w)
  get-upsert_cases t k j v w there = elim (Bool-cases (k == j)) [
    | inl same ↦ inl ((e.beq_iff k j).0 same, grind (arith, get-upsert t k j v))
    | inr other ↦ inr (grind (arith, get-upsert t k j v))
  ]

pub ruleset table_laws = (get-insert, get-update, get-delete, get-upsert)
