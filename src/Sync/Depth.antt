-- ===== src/Sync/Depth.antt =====
-- The recursion of `#putAgentObject` on the copy of a conflict.
use fabushi_backend.Prelude.{
  ℕ, suc, ◌≡◌, ◌≢◌, refl, sym, ap, ◌∙◌, inl, inr, List, Option, none, some, arith, Bool-cases,
  Result-cases, ok, err, text_Eq, pair_Eq, ◌==◌,
}
use fabushi_backend.Text.{Text, Locale}
use fabushi_backend.Table
use fabushi_backend.Sync.Log.{out_of_fuel, sync_account}
use fabushi_backend.Sync.Names.{agent_id, agent_path}
use fabushi_backend.Sync.Store.{Store, Ref, empty_store}
use fabushi_backend.Sync.Agents.{
  Sha256, Options, Object, put_object, get_object, object_key, is_conflict, open_object, put_copy,
  conflict_copy_path,
}
use fabushi_backend.Sync.Puts.{copying, copy_value, opened-IsWhole}
use fabushi_backend.Sync.Objects.{IsWhole}
use fabushi_backend.Sync.Histories.{run-IsWhole, IsWhole-empty}
use fabushi_backend.Sync.Calls.{Call, run, copy_fuel}

-- The errors of the store are not the model's.
agent_path_fuel : (value : Option Text) → agent_path value ≢ err out_of_fuel
unfolding agent_path
agent_path_fuel value e = ground arith

object_key_fuel :
    (account agent path : Option Text) → object_key account agent path ≢ err out_of_fuel
unfolding object_key sync_account agent_id
object_key_fuel account agent path e = grind (arith, agent_path_fuel path)

module _ (h : Sha256) (retention : ℕ) where
  open_object_fuel :
      (st : Store) (account agent path : Option Text) (bytes : List ℕ) (now : ℕ)
      → open_object h retention st account agent path bytes now ≢ err out_of_fuel
  unfolding open_object
  open_object_fuel st account agent path bytes now e =
      elim (Result-cases (object_key account agent path)) [
        | inl (code, p) ↦ grind (arith, object_key_fuel account agent path)
        | inr (k, p) ↦ ground arith
      ]

  copy_fuel_enough :
      (fuel : ℕ) (st : Store) (account agent path : Option Text) (bytes : List ℕ) (now : ℕ)
      → IsWhole h st
      → get_object st account agent path ≡ ok none
      → put_object h retention (suc fuel) st account agent path bytes copying now ≢ err out_of_fuel
  copy_fuel_enough fuel st account agent path bytes now v absent e =
      elim (Result-cases (open_object h retention st account agent path bytes now)) [
        | inl (code, p) ↦ grind (
          arith,
          copy_value h retention fuel st account agent path bytes now v absent,
          open_object_fuel st account agent path bytes now,
        )
        | inr (o, p) ↦
            grind (arith, copy_value h retention fuel st account agent path bytes now v absent)
      ]

  -- The copy is settled with one level of fuel.
  put_copy_fuel :
      (fuel : ℕ) (st : Store) (account agent path : Option Text) (bytes : List ℕ) (now : ℕ)
      (existing : Option Object)
      → IsWhole h st
      → get_object st account agent path ≡ ok existing
      → let put = λ (n : ℕ). put_object h retention n st account agent path bytes copying now in
        (put_copy h retention st existing (h.of_bytes bytes) (put (suc fuel))
          ≡ put_copy h retention st existing (h.of_bytes bytes) (put 1))
        × (put_copy h retention st existing (h.of_bytes bytes) (put 1) ≢ err out_of_fuel)
  unfolding put_copy
  put_copy_fuel fuel st account agent path bytes now none v absent = (
    copy_value h retention fuel st account agent path bytes now v absent
        ∙ sym (copy_value h retention 0 st account agent path bytes now v absent),
    copy_fuel_enough 0 st account agent path bytes now v absent,
  )
  put_copy_fuel fuel st account agent path bytes now (some x) v there = (
    refl,
    λ e. elim (Bool-cases (x.blob.sha256 == h.of_bytes bytes)) [
      | inl same ↦ ground arith
      | inr differs ↦ ground arith
    ],
  )

  conflict_copy_path_fuel :
      (path : Text) (o : Options) (previous : Option Ref) (digest : Text)
      → conflict_copy_path h path o previous digest ≢ err out_of_fuel
  unfolding conflict_copy_path
  conflict_copy_path_fuel path o previous digest e = agent_path_fuel _ e

  get_object_fuel :
      (st : Store) (account agent path : Option Text)
      → get_object st account agent path ≢ err out_of_fuel
  unfolding get_object
  get_object_fuel st account agent path e = elim (Result-cases (object_key account agent path)) [
    | inl (code, p) ↦ grind (arith, object_key_fuel account agent path)
    | inr (k, p) ↦ ground arith
  ]

  put_object_fuel :
      (fuel : ℕ) (st : Store) (account agent path : Option Text) (bytes : List ℕ) (o : Options)
      (now : ℕ)
      → IsWhole h st
      → (put_object h retention (suc (suc fuel)) st account agent path bytes o now
          ≡ put_object h retention copy_fuel st account agent path bytes o now)
        × (put_object h retention copy_fuel st account agent path bytes o now ≢ err out_of_fuel)
  unfolding put_object
  put_object_fuel fuel st account agent path bytes o now v =
      elim (Result-cases (open_object h retention st account agent path bytes now)) [
        | inl (code, p) ↦
            (ground arith, λ e. grind (arith, open_object_fuel st account agent path bytes now))
        | inr ((known, key), p) ↦ elim (Bool-cases (is_conflict o (Table.get known.refs key))) [
          | inr free ↦ (ground arith, λ e. ground arith)
          | inl clash ↦
              elim (Result-cases
                (conflict_copy_path h key.1.1 o (Table.get known.refs key) (h.of_bytes bytes))) [
                  | inl (code, q) ↦ (
                    ground arith,
                    λ e. grind (
                      arith,
                      conflict_copy_path_fuel key.1.1 o (Table.get known.refs key)
                          (h.of_bytes bytes),
                    ),
                  )
                  | inr (copy, q) ↦
                      elim (Result-cases
                        (get_object known (some key.0) (some key.1.0) (some copy))) [
                          | inl (code, r) ↦ (
                            ground arith,
                            λ e. grind (
                              arith,
                              get_object_fuel known (some key.0) (some key.1.0) (some copy),
                            ),
                          )
                          | inr (existing, r) ↦
                              let (kept, refs, blobs) =
                                opened-IsWhole h retention st known account agent path bytes now key
                                  v p in
                              let (same, fine) =
                                put_copy_fuel fuel known (some key.0) (some key.1.0) (some copy)
                                  bytes now existing kept r in
                              (
                                ground arith,
                                λ e.
                                    elim (Result-cases (
                                      put_copy h retention known existing (h.of_bytes bytes) (
                                        put_object h retention 1 known (some key.0) (some key.1.0)
                                          (some copy) bytes copying now))) [
                                            | inl (code, u) ↦ fine (u ∙ ap err (ground arith))
                                            | inr (result, u) ↦ ground arith
                                          ],
                              )
                        ]
                ]
        ]
      ]

  -- Behind any history of calls on an empty store, a put does not run out of the model's fuel, and
  -- more fuel changes nothing: the recursion of the source ends, one level deep at most, whatever
  -- the arguments.
  pub put_terminates :
      (l : Locale) (cs : List (ℕ × Call)) (more : ℕ) (account agent path : Option Text)
      (bytes : List ℕ) (o : Options) (now : ℕ)
      → let st = run l h retention empty_store cs in
        (put_object h retention (suc (suc more)) st account agent path bytes o now
          ≡ put_object h retention copy_fuel st account agent path bytes o now)
        × (put_object h retention copy_fuel st account agent path bytes o now ≢ err out_of_fuel)
  put_terminates l cs more account agent path bytes o now =
      put_object_fuel more (run l h retention empty_store cs) account agent path bytes o now
        (run-IsWhole l h retention empty_store cs (IsWhole-empty l h retention))
