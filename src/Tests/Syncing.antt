-- ===== src/Tests/Syncing.antt =====
-- A log that keeps two events, with three of alice's and one of bob's.
use fabushi_backend.Prelude.{◌<◌, ◌^◌, ◌-◌, length, ◌≤◌, arith, List, [], ◌∷◌, text_beq}
use fabushi_backend.Text.{Text, codes}
use fabushi_backend.Json.{obj, end}
use fabushi_backend.Table
use fabushi_backend.Sync.Log
use fabushi_backend.Sync.Log.{
  Entry, Log, append_all, empty_log, floor_of, current_sequence, events_after,
}
use fabushi_backend.Sync.Retention
use fabushi_backend.Sync.Retention.{full_history}

abbrev pub entry : Text → Entry
entry account = record {
  account = account;
  event_type = codes "bot.updated";
  entity_id = codes "b1";
  payload = obj end;
  now = 5;
}

abbrev pub entries : List Entry
entries =
    entry (codes "alice") ∷ entry (codes "bob") ∷ entry (codes "alice") ∷ entry (codes "alice") ∷ []

abbrev pub kept : Log
kept = append_all 2 empty_log entries

-- The first event of alice is gone, and a cursor behind it is still valid.
pub kept_bounds : (floor_of kept (codes "alice") ≤ 2) × (2 ≤ current_sequence kept (codes "alice"))
unfolding text_beq Table.get Table.delete Table.upsert Log.own Log.greatest Log.sequence_at
    Log.delete_before Log.floor_of Log.raise_floor Log.prune_below Log.prune Log.insert_event
    Log.append_event Log.current_sequence Log.append_all
kept_bounds = (omega arith, omega arith)

-- There are fewer than four events of alice after the cursor.
pub kept_ends :
    (current_sequence kept (codes "alice") ≤ 2 ^ 53 - 1)
    × (length (events_after (full_history empty_log entries).events (codes "alice") 2) < 4)
unfolding text_beq Table.get Table.delete Table.upsert Log.own Log.greatest Log.sequence_at
    Log.delete_before Log.floor_of Log.raise_floor Log.prune_below Log.prune Log.insert_event
    Log.append_event Log.current_sequence Log.append_all Log.above Log.oldest_first Log.events_after
    Retention.full_history
kept_ends = (omega arith, omega arith)
