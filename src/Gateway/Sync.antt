-- ===== src/Gateway/Sync.antt =====
-- The upload queue of smartparcel-gateway/gateway/services/sync_service.py: `enqueue_event_upload`,
-- `create_pickup_event` and `sync_push_once`.
pub mod Push
mod Tests
use smart_parcel_station.Prelude.{
  ℕ, suc, ◌+◌, String, Bool, true, false, ◌&&◌, Option, none, some, List, [], ◌∷◌, ◌++◌, map,
  str_eq, ◌==◌, filter, find_first, update_where, if◌then◌else◌,
}
use smart_parcel_station.Json.{Json, Fields, text, object, end, entry, get}
use smart_parcel_station.Session.{Action, pure, gets, draw, modify, commit, ◌>>=◌, ◌>>◌}
use smart_parcel_station.Runtime.{Runtime}
use smart_parcel_station.Gateway.Enums.{
  PickupEventType, EventSource, EventSyncStatus, SyncDirection, SyncQueueStatus,
}
use smart_parcel_station.Gateway.Entities.{LocalDb, LocalPickupEvent, SyncQueue}
use smart_parcel_station.Gateway.Outside.{Outside}

abbrev pub is_upload : SyncDirection → Bool
is_upload SyncDirection.upload = true
is_upload SyncDirection.download = false

-- in `[PENDING, FAILED]`
abbrev pub is_unsent : SyncQueueStatus → Bool
is_unsent SyncQueueStatus.pending = true
is_unsent SyncQueueStatus.failed = true
is_unsent _ = false

-- the rows that `sync_push_once` selects
abbrev pub is_due : SyncQueue → Bool
is_due row = is_upload row.direction && is_unsent row.status

abbrev pub acked : SyncQueue → SyncQueue
acked row = record row { status = SyncQueueStatus.acked }

abbrev pub push_failed : SyncQueue → SyncQueue
push_failed row = record row { status = SyncQueueStatus.failed; retry_count = row.retry_count + 1 }

-- the event with this key, marked as uploaded
abbrev mark_uploaded : Option LocalPickupEvent → List LocalPickupEvent → List LocalPickupEvent
mark_uploaded none events = events
mark_uploaded (some event) events =
    update_where (λ e. e.id == event.id) (λ e. record e { sync_status = EventSyncStatus.uploaded })
      events

-- `event_type.value`
abbrev pub event_type_value : PickupEventType → String
event_type_value PickupEventType.nfc_access = "NFC_ACCESS"
event_type_value PickupEventType.tag_wake = "TAG_WAKE"
event_type_value PickupEventType.pickup_confirmed = "PICKUP_CONFIRMED"
event_type_value PickupEventType.offline_pickup = "OFFLINE_PICKUP"

module _ (rt : Runtime) (out : Outside) where
  -- the row that is added and committed
  abbrev add_upload : String → Fields → Action LocalDb SyncQueue
  add_upload event_id payload = do
    rows ← gets (λ db. db.sync_queue)
    let row : SyncQueue = record {
      id = rt.next_id (map (λ r. r.id) rows);
      event_id = event_id;
      direction = SyncDirection.upload;
      payload_json = out.dumps true (object payload);
      status = SyncQueueStatus.pending;
      retry_count = 0;
    }
    modify (λ db. record db { sync_queue = db.sync_queue ++ row ∷ [] })
    commit
    pure row

  -- of a payload with its `event_id`
  unfoldable pub enqueue_event_upload : String → Fields → Action LocalDb SyncQueue
  enqueue_event_upload event_id payload = do _ ← draw rt.uuid_hex; add_upload event_id payload

  -- of a payload without one
  unfoldable pub enqueue_new_event : Fields → Action LocalDb SyncQueue
  enqueue_new_event payload = draw rt.uuid_hex >>= λ event_id. add_upload event_id payload

  -- an event that happened at the gateway, stored and put into the queue
  unfoldable pub create_pickup_event :
      String
      → PickupEventType
      → Fields
      → Option String
      → Option String
      → Action LocalDb LocalPickupEvent
  unfolding enqueue_event_upload
  create_pickup_event station_id event_type payload server_parcel_id user_id = do
    event_id ← draw rt.uuid_hex
    rows ← gets (λ db. db.local_pickup_events)
    let event : LocalPickupEvent = record {
      id = rt.next_id (map (λ e. e.id) rows);
      event_id = event_id;
      server_parcel_id = server_parcel_id;
      user_id = user_id;
      station_id = station_id;
      event_type = event_type;
      source = EventSource.gateway;
      payload_json = out.dumps true (object payload);
      sync_status = EventSyncStatus.pending_upload;
    }
    modify (λ db. record db { local_pickup_events = db.local_pickup_events ++ event ∷ [] })
    commit
    _ ← enqueue_event_upload event_id (
        entry "event_id" (text event_id) (
          entry "event_type" (text (event_type_value event_type))
            (entry "payload_json" (object payload) end)))
    pure event

  -- the body of the loop, of one row that the server takes or not
  unfoldable pub push_row : SyncQueue → Bool → Action LocalDb ℕ
  push_row row true = do
    event ← gets (λ db. find_first (λ e. str_eq e.event_id row.event_id) db.local_pickup_events)
    modify (λ db. record db {
      sync_queue = update_where (λ r. r.id == row.id) acked db.sync_queue;
      local_pickup_events = mark_uploaded event db.local_pickup_events;
    })
    pure 1
  push_row row false = do
    modify (λ db. record db {
      sync_queue = update_where (λ r. r.id == row.id) push_failed db.sync_queue;
    })
    pure 0

  -- the loop, with the rows that were sent counted
  unfoldable pub push_rows : List SyncQueue → Action LocalDb ℕ
  unfolding push_row
  push_rows [] = pure 0
  push_rows (row ∷ rows) = do
    taken ← draw (λ n. out.sync_push n row.payload_json)
    one ← push_row row taken
    rest ← push_rows rows
    pure (one + rest)

  unfoldable pub sync_push_once : Action LocalDb ℕ
  unfolding push_rows
  sync_push_once = do
    rows ← gets (λ db. filter is_due db.sync_queue)
    sent ← push_rows rows
    commit
    pure sent
