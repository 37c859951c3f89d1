-- ===== src/Gateway/Inbox.antt =====
-- The events that the gateway pulls from the server: `sync_pull_once` and `apply_sync_event` of
-- smartparcel-gateway/gateway/services/sync_service.py.
pub mod Read
pub mod Credentials
pub mod Parcels
mod Frame
mod Retired
mod CardEvents
mod ParcelEvents
mod Kinds
pub mod GateRequests
pub mod Safety
pub mod Disabled
mod Tests
pub mod Legacy
use smart_parcel_station.Prelude.{
  ℕ, String, Bool, true, false, not, ◌&&◌, ◌||◌, Option, none, some, str_eq, if◌then◌else◌,
}
use smart_parcel_station.Text.{upper}
use smart_parcel_station.Json.{
  Json, null, text, array, object, Items, nil, cons, Fields, end, get, truthy,
}
use smart_parcel_station.Session.{crash, Result, ok, err, Action, pure, draw, commit, ◌>>=◌, ◌>>◌}
use smart_parcel_station.Runtime.{Runtime}
use smart_parcel_station.Server.Payload.{str_of_json, lift}
use smart_parcel_station.Gateway.Config.{Settings}
use smart_parcel_station.Gateway.Entities.{LocalDb}
use smart_parcel_station.Gateway.Outside.{Outside}
use smart_parcel_station.Gateway.Access.ByUser.{handle_gate_auth_by_user}
use smart_parcel_station.Gateway.Inbox.Read.{get_or, has_key, must, column_text, not_null, iterated}
use smart_parcel_station.Gateway.Inbox.Credentials.{
  credential_upsert, credential_disabled, credential_replaced,
}
use smart_parcel_station.Gateway.Inbox.Legacy.{pull_parcels}
use smart_parcel_station.Gateway.Inbox.Parcels.{
  parcel_upsert, parcel_tag_binding_upsert, parcel_pickup_confirmed,
}

-- `event.get("event_type", "")`, of which `upper` is taken
unfoldable pub event_type_of : Json → Result String
event_type_of (text s) = ok s
event_type_of _ = err (crash "AttributeError")

-- `event.get("payload_json") or {}`
unfoldable pub payload_of : Option Json → Result Fields
payload_of none = ok end
payload_of (some (object fields)) = ok fields
payload_of (some v) = if truthy (some v) then err (crash "TypeError") else ok end

module _ (rt : Runtime) (out : Outside) (station_id : String) (settings : Settings) where
  -- GATE_USER_AUTH_REQUESTED; a value that is no text fails where it is used
  unfoldable pub gate_user_auth_requested : Fields → Action LocalDb (Unit {0})
  gate_user_auth_requested payload = do
    method ← lift (must "auth_method" payload)
    auth_method ← lift (column_text (some method))
    reader ← lift (must "reader_id" payload)
    reader_id ← lift (column_text (some reader))
    user ← lift (must "user_id" payload)
    request_id ← lift (column_text (get "request_id" payload))
    session_id ← lift (column_text (get "session_id" payload))
    method_text ← lift (not_null auth_method)
    reader_text ← lift (not_null reader_id)
    handle_gate_auth_by_user rt out station_id settings.gateway_code
        settings.gate_auth_result_ttl_seconds method_text reader_text (str_of_json rt user)
        request_id session_id
    pure tt

  -- by the kind, which is in capitals
  unfoldable pub apply_kind : String → Fields → ℕ → Action LocalDb (Unit {0})
  apply_kind kind payload now =
      if str_eq kind "USER_ACCESS_CREDENTIAL_UPSERT"
      then credential_upsert rt out station_id payload now
      else if str_eq kind "USER_ACCESS_CREDENTIAL_DISABLED"
      then credential_disabled payload now
      else if str_eq kind "USER_ACCESS_CREDENTIAL_REPLACED"
      then credential_replaced rt out station_id payload
      else if str_eq kind "PARCEL_UPSERT"
      then parcel_upsert rt station_id payload now
      else if str_eq kind "PARCEL_TAG_BINDING_UPSERT"
      then parcel_tag_binding_upsert rt station_id payload
      else if str_eq kind "PARCEL_PICKUP_CONFIRMED"
      then parcel_pickup_confirmed rt station_id payload now
      else if str_eq kind "GATE_USER_AUTH_REQUESTED"
      then gate_user_auth_requested payload
      else pure tt

  unfoldable pub apply_sync_event : String → Fields → Action LocalDb (Unit {0})
  apply_sync_event event_type payload = draw rt.clock >>= apply_kind (upper event_type) payload

  abbrev pub apply_read : Result String → Result Fields → Action LocalDb (Unit {0})
  apply_read event_type payload =
      lift event_type >>= λ kind. lift payload >>= λ fields. apply_sync_event kind fields

  -- the body of the loop
  unfoldable pub apply_item : Json → Action LocalDb (Unit {0})
  apply_item (object event) =
      apply_read (event_type_of (get_or "event_type" (text "") event))
        (payload_of (get "payload_json" event))
  apply_item _ = lift (err (crash "AttributeError"))

  unfoldable pub apply_items : Items → Action LocalDb (Unit {0})
  apply_items nil = pure tt
  apply_items (cons event events) = do apply_item event; apply_items events

  -- `"events" in data and not any(k in data for k in ("parcels", "tags", "bindings"))`
  abbrev pub is_event_answer : Fields → Bool
  is_event_answer answer =
      has_key "events" answer
      && not (has_key "parcels" answer || has_key "tags" answer || has_key "bindings" answer)

  -- by the answer of `client.sync_pull`, which it returns
  unfoldable pub sync_pull_once : Fields → Action LocalDb Fields
  sync_pull_once answer =
      if is_event_answer answer
      then (do
        events ← lift (iterated (get_or "events" (array nil) answer))
        apply_items events
        commit
        pure answer)
      else (do
        parcels ← lift (iterated (get_or "parcels" (array nil) answer))
        pull_parcels rt station_id parcels
        commit
        pure answer)
