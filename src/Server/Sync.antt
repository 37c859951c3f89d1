-- ===== src/Server/Sync.antt =====
-- The events between the server and its gateways: smartparcel-server/app/services/services.py,
-- `gateway_pull_sync`, `gateway_push_sync` and `create_gateway_event`.
pub mod Apply
pub mod Mailbox
pub mod Answer
pub mod Push
mod Tests
use smart_parcel_station.Prelude.{
  ℕ, ◌+◌, String, Bool, true, false, ◌&&◌, Option, none, some, List, [], ◌∷◌, ◌++◌, map, str_eq,
  ◌==◌, filter, update_where,
}
use smart_parcel_station.Json.{Fields}
use smart_parcel_station.Session.{Action, pure, gets, modify, commit, one_or_none, ◌>>=◌, ◌>>◌}
use smart_parcel_station.Runtime.{Runtime}
use smart_parcel_station.Server.Enums.{SyncDirection, SyncStatus}
use smart_parcel_station.Server.Models.{Db, GatewaySyncEvent}
use smart_parcel_station.Server.Sync.Apply.{apply_gateway_business_event}

abbrev pub is_pending : SyncStatus → Bool
is_pending SyncStatus.pending = true
is_pending _ = false

-- the rows that a pull selects
abbrev pub is_due : ℕ → GatewaySyncEvent → Bool
is_due gateway_id e = (e.gateway_id == gateway_id) && is_pending e.status

abbrev pub sent : GatewaySyncEvent → GatewaySyncEvent
sent e = record e { status = SyncStatus.sent }

-- the events are rows of the session, so those that are returned are marked too
unfoldable pub gateway_pull_sync : ℕ → Action Db (List GatewaySyncEvent)
gateway_pull_sync gateway_id = do
  events ← gets (λ db. filter (is_due gateway_id) db.gateway_sync_events)
  modify (λ db. record db {
    gateway_sync_events = update_where (is_due gateway_id) sent db.gateway_sync_events;
  })
  commit
  pure (map sent events)

pub record SyncPushItem : Type 0 where
  pub event_id : String
  pub event_type : String
  pub payload_json : Fields

module _ (rt : Runtime) (gateway_id station_id : ℕ) where
  -- the row of an event that a gateway sends
  abbrev pub received : SyncPushItem → List GatewaySyncEvent → GatewaySyncEvent
  received item rows = record {
    id = rt.next_id (map (λ e. e.id) rows);
    event_id = item.event_id;
    gateway_id = gateway_id;
    station_id = station_id;
    event_type = item.event_type;
    direction = SyncDirection.gateway_to_server;
    payload_json = item.payload_json;
    status = SyncStatus.acked;
    retry_count = 0;
  }

  abbrev pub add_received : SyncPushItem → Db → Db
  add_received item db = record db {
    gateway_sync_events = db.gateway_sync_events ++ received item db.gateway_sync_events ∷ [];
  }

  -- the body of the loop, with the row that has the event id: accepted and duplicate
  unfoldable pub push_item : SyncPushItem → Option GatewaySyncEvent → Action Db (ℕ × ℕ)
  push_item item (some row) = pure (0, 1)
  push_item item none = do
    modify (add_received item)
    apply_gateway_business_event rt gateway_id station_id item.event_type item.payload_json
    pure (1, 0)

  -- the loop
  unfoldable pub push_items : List SyncPushItem → Action Db (ℕ × ℕ)
  push_items [] = pure (0, 0)
  push_items (item ∷ items) = do
    row ←
        one_or_none
          (← gets (λ db. filter (λ e. str_eq e.event_id item.event_id) db.gateway_sync_events))
    (accepted, duplicate) ← push_item item row
    (more_accepted, more_duplicate) ← push_items items
    pure (accepted + more_accepted, duplicate + more_duplicate)

  unfoldable pub gateway_push_sync : List SyncPushItem → Action Db (ℕ × ℕ)
  gateway_push_sync items = do counts ← push_items items; commit; pure counts

  -- by whether an event with the id is there; the answer tells whether it is accepted
  unfoldable pub store_event : SyncPushItem → Option GatewaySyncEvent → Action Db Bool
  store_event item (some row) = pure false
  store_event item none = do modify (add_received item); commit; pure true

  unfoldable pub create_gateway_event : SyncPushItem → Action Db Bool
  create_gateway_event item = do
    existing ←
        one_or_none
          (← gets (λ db. filter (λ e. str_eq e.event_id item.event_id) db.gateway_sync_events))
    store_event item existing
