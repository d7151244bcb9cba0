-- ===== src/Sync/Log.antt =====
-- The event log: `#appendEvent`, `#prune`, `recordEvent`, `currentCursor` and `sync`.
use Prim.Native.Nat.{max}
use fabushi_backend.Prelude.{
  ℕ, zero, suc, ◌+◌, ◌-◌, Bool, true, false, ◌&&◌, List, [], ◌∷◌, ◌++◌, Option, none, some, length,
  take, leb, ltb, nat_beq, text_Eq, ◌==◌, Result, ok, throw_if, ◌>>=◌, ◌>>◌, if◌then◌else◌, ◌||◌,
}
use fabushi_backend.Text.{Text, trim, text_or, is_empty}
use fabushi_backend.Json.{Json}
use fabushi_backend.Table
use fabushi_backend.Table.{Table}
use fabushi_backend.Sync.Cursor.{
  Requested, initial, invalid, from, encode_cursor, decode_cursor, positive_limit,
}

-- A row of `account_sync_events`.
pub record Event : Type 0 where
  pub sequence : ℕ
  pub account_id : Text
  pub event_type : Text
  pub entity_id : Text
  pub payload : Json
  pub occurred_at_ms : ℕ

-- The events, the newest first, the last sequence number that was given out (AUTOINCREMENT), and
-- the floors of `account_sync_state` with their times.
pub record Log : Type 0 where
  pub events : List Event
  pub last : ℕ
  pub floors : Table Text (ℕ × ℕ)

pub data Error : Type 0 where
  account_required event_required : Error
  invalid_mini_app_id invalid_cloud_key cloud_key_refused cloud_value_too_large : Error
  too_many_cloud_keys : Error
  invalid_agent_id invalid_agent_path agent_object_too_large too_many_agent_objects : Error
  conflict_copy_mismatch : Error
  -- no error of the store: a recursive call for which the model has no fuel
  out_of_fuel : Error

-- `normalizeAccountId`
unfoldable pub sync_account : Option Text → Result Error Text
sync_account value = do
  let account = trim (text_or value [])
  throw_if (is_empty account) account_required
  ok account

-- The rows of an account, WHERE account_id = ?
unfoldable pub own : Text → List Event → List Event
own account [] = []
own account (e ∷ es) = if e.account_id == account then e ∷ own account es else own account es

-- the rows with sequence > after
unfoldable pub above : ℕ → List Event → List Event
above after [] = []
above after (e ∷ es) = if ltb after e.sequence then e ∷ above after es else above after es

-- The statement `currentSequence`.
unfoldable pub greatest : List Event → ℕ
greatest [] = 0
greatest (e ∷ es) = max e.sequence (greatest es)

-- ORDER BY sequence ASC, of rows with the newest first
unfoldable pub oldest_first : List Event → List Event
oldest_first [] = []
oldest_first (e ∷ es) = oldest_first es ++ e ∷ []

-- ORDER BY sequence DESC LIMIT 1 OFFSET ?, or 0
unfoldable pub sequence_at : ℕ → List Event → ℕ
sequence_at n [] = 0
sequence_at zero (e ∷ es) = e.sequence
sequence_at (suc n) (e ∷ es) = sequence_at n es

-- The statement `deleteEventsBefore`.
unfoldable pub delete_before : Text → ℕ → List Event → List Event
delete_before account minimum [] = []
delete_before account minimum (e ∷ es) =
    if e.account_id == account && ltb e.sequence minimum
    then delete_before account minimum es
    else e ∷ delete_before account minimum es

abbrev pub floor_or_zero : Option (ℕ × ℕ) → ℕ
floor_or_zero none = 0
floor_or_zero (some f) = f.0

unfoldable pub floor_of : Log → Text → ℕ
floor_of log account = floor_or_zero (Table.get log.floors account)

-- The statement `upsertState`: the floor never falls.
unfoldable pub raise_floor : Log → Text → ℕ → ℕ → Log
unfolding floor_of
raise_floor log account floor now = record log {
  floors = Table.upsert log.floors account (max (floor_of log account) floor, now);
}

-- `#prune`, behind its two tests
unfoldable pub prune_below : Log → Text → ℕ → ℕ → Log
unfolding raise_floor delete_before
prune_below log account minimum now =
    raise_floor (record log { events = delete_before account minimum log.events }) account
      (minimum - 1) now

unfoldable pub prune : ℕ → Log → Text → ℕ → Log
unfolding prune_below own sequence_at
prune retention log account now =
    if leb (length (own account log.events)) retention
    then log
    else if nat_beq (sequence_at (retention - 1) (own account log.events)) 0
    then log
    else prune_below log account (sequence_at (retention - 1) (own account log.events)) now

-- What a caller of `#appendEvent` gives.
pub record Entry : Type 0 where
  pub account : Text
  pub event_type : Text
  pub entity_id : Text
  pub payload : Json
  pub now : ℕ

-- The statement `insertEvent`.
unfoldable pub insert_event : Log → Entry → Log
insert_event log e = record log {
  events =
      record {
        sequence = suc log.last;
        account_id = e.account;
        event_type = e.event_type;
        entity_id = e.entity_id;
        payload = e.payload;
        occurred_at_ms = e.now;
      }
      ∷ log.events;
  last = suc log.last;
}

unfoldable pub append_event : ℕ → Log → Entry → Log
unfolding prune insert_event
append_event retention log e = prune retention (insert_event log e) e.account e.now

-- With the sequence and the cursor of the event.
unfoldable pub record_event :
    ℕ → Log → Option Text → Option Text → Option Text → Json → ℕ → Result Error (Log × ℕ × Text)
unfolding append_event sync_account
record_event retention log account type entity payload now = do
  name ← sync_account account
  let event_type = trim (text_or type [])
  let entity_id = trim (text_or entity [])
  throw_if (is_empty event_type || is_empty entity_id) event_required
  ok (
    append_event retention log (record {
      account = name;
      event_type = event_type;
      entity_id = entity_id;
      payload = payload;
      now = now;
    }),
    suc log.last,
    encode_cursor (suc log.last),
  )

unfoldable pub current_sequence : Log → Text → ℕ
unfolding greatest own
current_sequence log account = greatest (own account log.events)

unfoldable pub current_cursor : Log → Option Text → Result Error Text
unfolding current_sequence sync_account
current_cursor log account = do
  name ← sync_account account
  ok (encode_cursor (current_sequence log name))

pub data Reason : Type 0 where
  initial_sync invalid_cursor cursor_ahead cursor_expired : Reason

-- A reply: a snapshot of the tables, which are not modelled, or a page of events.
pub data Reply : Type 0 where
  snapshot : Reason → Text → Reply
  difference : Text → Bool → List Event → Reply

-- The rows that a client behind `after` has not seen, in order.
unfoldable pub events_after : List Event → Text → ℕ → List Event
unfolding own above oldest_first
events_after events account after = oldest_first (above after (own account events))

-- the sequence of the last row of the page
unfoldable pub last_sequence : ℕ → List Event → ℕ
last_sequence fallback [] = fallback
last_sequence fallback (e ∷ es) = last_sequence e.sequence es

-- the page, of the rows under LIMIT limit + 1
unfoldable pub page_reply : ℕ → ℕ → ℕ → List Event → Reply
unfolding last_sequence
page_reply limit requested current rows =
    if ltb limit (length rows)
    then difference (encode_cursor (last_sequence requested (take limit rows))) true
        (take limit rows)
    else difference (encode_cursor current) false rows

unfoldable pub sync_from : Log → Text → ℕ → ℕ → Reply
unfolding page_reply events_after current_sequence floor_of
sync_from log account limit requested =
    if ltb (current_sequence log account) requested
    then snapshot cursor_ahead (encode_cursor (current_sequence log account))
    else if ltb requested (floor_of log account)
    then snapshot cursor_expired (encode_cursor (current_sequence log account))
    else page_reply limit requested (current_sequence log account)
        (take (limit + 1) (events_after log.events account requested))

unfoldable pub sync_reply : Log → Text → ℕ → Requested → Reply
unfolding sync_from
sync_reply log account limit initial =
    snapshot initial_sync (encode_cursor (current_sequence log account))
sync_reply log account limit invalid =
    snapshot invalid_cursor (encode_cursor (current_sequence log account))
sync_reply log account limit (from requested) = sync_from log account limit requested

unfoldable pub sync : Log → Option Text → Option Text → Option ℕ → Result Error Reply
unfolding sync_reply
sync log account cursor limit = do
  name ← sync_account account
  ok (sync_reply log name (positive_limit limit) (decode_cursor cursor))

-- The log behind a list of calls of `#appendEvent`.
unfoldable pub append_all : ℕ → Log → List Entry → Log
unfolding append_event
append_all retention log [] = log
append_all retention log (e ∷ es) = append_all retention (append_event retention log e) es

abbrev pub empty_log : Log
empty_log = record { events = []; last = 0; floors = [] }
