-- ===== src/Sync/Counts.antt =====
-- The number of rows under the first two columns of a key, behind the statements that write.
use fabushi_backend.Prelude.{
  ℕ, suc, ◌≤◌, ◌≡◌, true, false, ◌&&◌, not, [], ◌∷◌, arith, text_Eq, text_beq_iff, pair_Eq, leb,
  is_some,
}
use fabushi_backend.Text.{Text}
use fabushi_backend.Table
use fabushi_backend.Table.{Table}
use fabushi_backend.Sync.Store.{Key, count_under}

module _ {V : Type 0} where
  pub count_under-delete :
      (t : Table Key V) (k : Key) (a b : Text)
      → count_under (Table.delete t k) a b ≤ count_under t a b
  unfolding count_under Table.delete
  count_under-delete [] k a b = omega arith
  count_under-delete (((i, (j, n)), v) ∷ t) k a b = ground (arith, count_under-delete t k a b)

  -- Deletion of a row that is there.
  count_under-delete_present :
      (t : Table Key V) (k : Key)
      → is_some (Table.get t k) ≡ true
      → suc (count_under (Table.delete t k) k.0 k.1.0) ≤ count_under t k.0 k.1.0
  unfolding count_under Table.delete Table.get
  count_under-delete_present [] k h = absurd (ground arith)
  count_under-delete_present (((i, (j, n)), v) ∷ t) k h =
      grind (arith, count_under-delete_present t k, count_under-delete t k k.0 k.1.0)

  -- The test before a write keeps the bound.
  pub count_under-upsert :
      (t : Table Key V) (k : Key) (v : V) (bound : ℕ)
      → ((a b : Text) → count_under t a b ≤ bound)
      → (not (is_some (Table.get t k)) && leb bound (count_under t k.0 k.1.0)) ≡ false
      → (a b : Text) → count_under (Table.upsert t k v) a b ≤ bound
  unfolding count_under Table.upsert
  count_under-upsert t (i, (j, n)) v bound kept room a b = grind (
    arith,
    kept a b,
    count_under-delete t (i, (j, n)) a b,
    count_under-delete_present t (i, (j, n)),
    text_beq_iff i a,
    text_beq_iff j b,
  )
