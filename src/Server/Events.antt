-- ===== src/Server/Events.antt =====
-- The queue of events from the server to the gateways: smartparcel-server/app/services/services.py,
-- `_station_gateways` and `_queue_station_event`.
pub mod Queue
mod Tests
use smart_parcel_station.Prelude.{ℕ, String, List, [], ◌∷◌, ◌++◌, map, filter, ◌==◌}
use smart_parcel_station.Json.{Fields}
use smart_parcel_station.Session.{Action, gets, draw, modify, for_each, ◌>>=◌, ◌>>◌}
use smart_parcel_station.Runtime.{Runtime}
use smart_parcel_station.Server.Enums.{SyncDirection, SyncStatus, GatewaySyncEventType}
use smart_parcel_station.Server.Enums.Values.{gateway_sync_event_type_value}
use smart_parcel_station.Server.Models.{Db, Gateway, GatewaySyncEvent}

-- `_station_gateways`
unfoldable pub station_gateways : ℕ → Action Db (List Gateway)
station_gateways station_id = gets (λ db. filter (λ g. g.station_id == station_id) db.gateways)

module _ (rt : Runtime) (station_id : ℕ) (event_type : GatewaySyncEventType)
    (payload : Fields) where
  -- the row for one gateway
  abbrev pub station_event : Gateway → String → List GatewaySyncEvent → GatewaySyncEvent
  station_event gateway uuid rows = record {
    id = rt.next_id (map (λ e. e.id) rows);
    event_id = uuid;
    gateway_id = gateway.id;
    station_id = station_id;
    event_type = gateway_sync_event_type_value event_type;
    direction = SyncDirection.server_to_gateway;
    payload_json = payload;
    status = SyncStatus.pending;
    retry_count = 0;
  }

  -- the body of the loop
  unfoldable pub queue_for : Gateway → Action Db (Unit {0})
  queue_for gateway = do
    uuid ← draw rt.uuid_hex
    modify (λ db. record db {
      gateway_sync_events =
          db.gateway_sync_events ++ station_event gateway uuid db.gateway_sync_events ∷ [];
    })

  -- `_queue_station_event`
  unfoldable pub queue_station_event : Action Db (Unit {0})
  unfolding station_gateways
  queue_station_event = do gateways ← station_gateways station_id; for_each gateways queue_for
