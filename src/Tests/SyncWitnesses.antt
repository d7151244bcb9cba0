-- ===== src/Tests/SyncWitnesses.antt =====
-- The properties of the pages of the event log, of the cloud storage and of the objects of agents at
-- the runs of Tests.Syncing and Tests.Objects.
use fabushi_backend.Prelude.{◌≡◌, ◌≢◌, ◌≤◌, ◌⊎◌, false, refl, some, ok, err, text_Eq, pair_Eq}
use fabushi_backend.Prelude.{arith, if◌then◌else◌, ◌==◌}
use fabushi_backend.Text.{text_or}
use fabushi_backend.Sync.Names.{stored}
use fabushi_backend.Sync.Store.{empty_store}
use fabushi_backend.Sync.Cloud.{get_cloud_value}
use fabushi_backend.Sync.Values.{get_cloud_value-set_cloud_value}
use fabushi_backend.Tests.Objects.{score_key, score_named, score_again, score_set}
use fabushi_backend.Text.{Text, codes}
use fabushi_backend.Table
use fabushi_backend.Sync.Log.{out_of_fuel, empty_log, events_after}
use fabushi_backend.Sync.Retention.{full_history}
use fabushi_backend.Sync.Drain.{finished, drain, drain_complete}
use fabushi_backend.Tests.Syncing.{entries, kept, kept_bounds, kept_ends}
use fabushi_backend.Sync.Store.{Key, count_under}
use fabushi_backend.Sync.Cloud.{max_cloud_keys_per_app}
use fabushi_backend.Sync.Agents.{
  Outcome, Object, conflict, object_key, object_at, etag_of, max_agent_objects, put_object,
}
use fabushi_backend.Sync.Calls.{copy_fuel}
use fabushi_backend.Sync.Contents.{Fits, Clashes, Holds}
use fabushi_backend.Sync.Limits.{limits_kept}
use fabushi_backend.Sync.Histories.{put_lossless}
use fabushi_backend.Sync.Depth.{put_terminates}
use fabushi_backend.Tests.Fixtures.{ascii_locale}
use fabushi_backend.Tests.Objects.{
  toy_sha256, owner, helper, notes, notes_key, notes_named, notes_clash, stale, filed, shelf,
}

limits_kept_example :
    (count_under shelf.cloud (codes "alice") (codes "game") ≤ max_cloud_keys_per_app)
    × (count_under shelf.refs (codes "alice") (codes "game") ≤ max_agent_objects)
limits_kept_example = limits_kept ascii_locale toy_sha256 16 filed (codes "alice") (codes "game")

put_lossless_example :
    (Fits stale (Table.get shelf.refs notes_key)
      × ((j : Key) (x : Object)
          → (notes_key == j) ≡ false
          → object_at shelf j ≡ some x
          → object_at notes_clash.0 j ≡ some x)
      × Holds toy_sha256 notes_clash.0 notes_key (codes "b"))
    ⊎ (Clashes stale (Table.get shelf.refs notes_key)
        × ((j : Key) (x : Object) → object_at shelf j ≡ some x → object_at notes_clash.0 j ≡ some x)
        × (copy : Text) × (stored : Outcome) × (k : Key) × (notes_clash.1
            ≡ conflict (codes "notes/today") copy (etag_of (Table.get shelf.refs notes_key)) stored)
        × (object_key (some (codes "alice")) (some (codes "helper")) (some copy) ≡ ok k)
        × Holds toy_sha256 notes_clash.0 k (codes "b"))
put_lossless_example =
    put_lossless ascii_locale toy_sha256 16 filed notes_clash.0 owner helper notes (codes "b") stale
      3 notes_clash.1 notes_key notes_named (λ k b there same. same) notes_clash.2

put_terminates_example :
    (put_object toy_sha256 16 3 shelf owner helper notes (codes "b") stale 3
      ≡ put_object toy_sha256 16 copy_fuel shelf owner helper notes (codes "b") stale 3)
    × (put_object toy_sha256 16 copy_fuel shelf owner helper notes (codes "b") stale 3
        ≢ err out_of_fuel)
put_terminates_example =
    put_terminates toy_sha256 16 ascii_locale filed 1 owner helper notes (codes "b") stale 3

drain_complete_example :
    drain 4 kept (codes "alice") 1 2
    ≡ finished (events_after (full_history empty_log entries).events (codes "alice") 2)
drain_complete_example =
    drain_complete 2 entries (codes "alice") 1 2 4 (omega arith) kept_bounds.0 kept_bounds.1
      kept_ends.0 kept_ends.1

get_cloud_value-set_cloud_value_example :
    get_cloud_value ascii_locale score_set.0 owner (some (codes " Game")) (some (codes "score")) ≡ (
      if score_key == score_key
      then ok (some (record { value = codes "13"; revision = score_set.1; updated_at_ms = 4 }))
      else get_cloud_value ascii_locale empty_store owner
          (some (codes " Game"))
          (some (codes "score")))
unfolding text_or stored
get_cloud_value-set_cloud_value_example =
    get_cloud_value-set_cloud_value ascii_locale 16 empty_store score_set.0 owner
      (some (codes "game")) (some (codes "score")) (some (codes "13")) 4 score_set.1 owner
      (some (codes " Game")) (some (codes "score")) score_key score_key score_named score_again refl
      refl score_set.2
