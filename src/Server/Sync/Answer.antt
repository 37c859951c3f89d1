-- ===== src/Server/Sync/Answer.antt =====
-- What a gateway is sent of its events: `gateway_pull_sync` of
-- smartparcel-server/app/api/v1/endpoints/endpoints.py.
use smart_parcel_station.Prelude.{String, List, [], ◌∷◌, not, str_eq}
use smart_parcel_station.Prelude.Int.{pos}
use smart_parcel_station.Json.{
  Json, number, text, array, object, Items, nil, cons, Fields, end, entry,
}
use smart_parcel_station.Session.{http, Action, pure, raise_if, ◌>>=◌, ◌>>◌}
use smart_parcel_station.Server.Models.{Db, Gateway, GatewaySyncEvent}
use smart_parcel_station.Server.Sync.{gateway_pull_sync}

-- one event of the answer
abbrev pub event_item : GatewaySyncEvent → Json
event_item e = object (
    entry "id" (number (pos e.id)) (
      entry "event_id" (text e.event_id) (
        entry "event_type" (text e.event_type) (entry "payload_json" (object e.payload_json) end))))

unfoldable pub event_items : List GatewaySyncEvent → Items
event_items [] = nil
event_items (e ∷ es) = cons (event_item e) (event_items es)

-- the body of the answer
abbrev pub pull_answer : List GatewaySyncEvent → Fields
pull_answer events = entry "events" (array (event_items events)) end

-- the endpoint, by the gateway that the request was signed for
unfoldable pub answer_pull : String → Gateway → Action Db Fields
answer_pull gateway_code gateway = do
  raise_if (not (str_eq gateway.gateway_code gateway_code)) (http 401 "Unauthorized")
  events ← gateway_pull_sync gateway.id
  pure (pull_answer events)
