-- ===== src/Server/Events/Tests.antt =====
-- An example of the queue.
use smart_parcel_station.Prelude.{[], ◌≡◌, filter, ◌==◌}
use smart_parcel_station.Json.{text, end, entry}
use smart_parcel_station.Session.{ok, opened}
use smart_parcel_station.Server.Enums.{GatewaySyncEventType}
use smart_parcel_station.Server.Events.{queue_station_event}
use smart_parcel_station.Server.Events.Queue.{IsAdded, queue_station_event-IsAdded}
use smart_parcel_station.Server.Examples.{example_runtime, example_db}

queue_station_event-IsAdded_example :
    let s = opened (example_db []) 5 in
    let (r, t) =
      queue_station_event example_runtime 7 GatewaySyncEventType.user_access_credential_upsert
        (entry "user_id" (text "1") end)
        s in
    (r ≡ ok tt)
    × IsAdded example_runtime 7 GatewaySyncEventType.user_access_credential_upsert
        (entry "user_id" (text "1") end)
        (filter (λ g. g.station_id == 7) s.work.gateways)
        s.work.gateway_sync_events
        t.work.gateway_sync_events
    × (t.work ≡ record s.work { gateway_sync_events = t.work.gateway_sync_events })
    × (t.saved ≡ s.saved)
queue_station_event-IsAdded_example =
    queue_station_event-IsAdded example_runtime 7 GatewaySyncEventType.user_access_credential_upsert
      (entry "user_id" (text "1") end) (opened (example_db []) 5)
