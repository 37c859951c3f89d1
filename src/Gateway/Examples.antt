-- ===== src/Gateway/Examples.antt =====
-- Concrete values for the examples of the gateway: what is outside it, and an empty database.
use smart_parcel_station.Prelude.{none, [], ◌==◌, str_eq, if◌then◌else◌}
use smart_parcel_station.Json.{text, end, entry}
use smart_parcel_station.Gateway.Entities.{LocalDb}
use smart_parcel_station.Gateway.Outside.{Outside, reply, failure}

-- a server that takes the first push only, and tags of which `T2` is out of reach
abbrev pub example_outside : Outside
example_outside = record {
  dumps = λ ascii value. "{}";
  dumps_compact = λ value. "{}";
  fromisoformat = λ s. none;
  sync_push = λ n payload. n == 0;
  tag_wake = λ n tag colour session.
      if str_eq tag "T2" then failure "timeout" else reply (entry "result" (text "OK") end);
}

abbrev pub empty_db : LocalDb
empty_db = record {
  local_parcels = [];
  local_tags = [];
  local_parcel_tag_bindings = [];
  local_nfc_credentials = [];
  local_pickup_events = [];
  local_pickup_sessions = [];
  gate_auth_sessions = [];
  gateway_tasks = [];
  sync_queue = [];
  gateway_config = [];
  gateway_binding_sessions = [];
  gateway_security_audit = [];
  local_api_sessions = [];
}
