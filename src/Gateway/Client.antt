-- ===== src/Gateway/Client.antt =====
-- The requests that the gateway signs and sends to the server: smartparcel-gateway/gateway/core/security.py
-- and `ServerClient` of services/server_client.py. The HTTP connection and the answers are outside.
pub mod Accepted
mod Tests
use smart_parcel_station.Prelude.{ℕ, String, Bool, Option, none, some, str_eq, if◌then◌else◌}
use smart_parcel_station.Text.{◌&◌, upper, str_of}
use smart_parcel_station.Json.{Json, Fields, Items, object, array, text, end, entry}
use smart_parcel_station.Session.{Action, pure, draw, ◌>>=◌}
use smart_parcel_station.Runtime.{Runtime}
use smart_parcel_station.Gateway.Config.{Settings}
use smart_parcel_station.Gateway.Outside.{Outside}

-- the dict of headers, by its keys
pub record GatewayHeaders : Type 0 where
  pub x_gateway_code : String
  pub x_gateway_timestamp : String
  pub x_gateway_nonce : String
  pub x_gateway_body_sha256 : String
  pub x_gateway_signature : String
  pub content_type : String

-- what `client.request` is called with
pub record Sent : Type 0 where
  pub method : String
  pub path : String
  pub headers : GatewayHeaders
  pub body : String

unfoldable pub signing_content : String → String → String → String → String → String
signing_content method path timestamp nonce body_sha256 =
    upper method & "\n" & path & "\n" & timestamp & "\n" & nonce & "\n" & body_sha256

module _ (rt : Runtime) (out : Outside) where
  unfoldable pub serialize_json_body : Option Json → String
  serialize_json_body none = ""
  serialize_json_body (some payload) = out.dumps_compact payload

  unfoldable pub body_hash : Option Json → String
  body_hash payload = rt.sha256 (serialize_json_body payload)

  unfoldable pub generate_signature : String → String → String → String → String → String → String
  generate_signature secret method path timestamp nonce body_sha256 =
      rt.hmac_sha256 secret (signing_content method path timestamp nonce body_sha256)

  -- the headers, from the reading of the clock and the nonce
  abbrev pub headers_of :
      String → String → String → String → Option Json → String → String → GatewayHeaders
  headers_of secret gateway_code method path payload ts nonce = record {
    x_gateway_code = gateway_code;
    x_gateway_timestamp = ts;
    x_gateway_nonce = nonce;
    x_gateway_body_sha256 = body_hash payload;
    x_gateway_signature = generate_signature secret method path ts nonce (body_hash payload);
    content_type = "application/json";
  }

  module _ {D : Type 0} where
    unfoldable pub build_gateway_headers :
        String → String → String → String → Option Json → Action D GatewayHeaders
    build_gateway_headers secret gateway_code method path payload = do
      now ← draw rt.clock
      nonce ← draw rt.uuid_hex
      pure (headers_of secret gateway_code method path payload (str_of now) nonce)

    -- `_request`, up to the call of the HTTP client: a GET has no body
    unfoldable pub request : Settings → String → String → Option Json → Action D Sent
    request settings method path payload = do
      headers ←
          build_gateway_headers settings.gateway_secret settings.gateway_code method path payload
      pure (record {
        method = method;
        path = path;
        headers = headers;
        body = if str_eq (upper method) "GET" then "" else serialize_json_body payload;
      })

    abbrev pub health : Settings → Action D Sent
    health settings = request settings "GET" "/api/v1/health" none

    abbrev pub heartbeat : Settings → Action D Sent
    heartbeat settings = request settings "POST" "/api/v1/gateways/heartbeat" (
        some (
          object (
            entry "gateway_code" (text settings.gateway_code)
              (entry "status" (text "ONLINE") end))))

    abbrev pub sync_pull : Settings → Action D Sent
    sync_pull settings =
        request settings "GET" ("/api/v1/gateways/" & settings.gateway_code & "/sync/pull") none

    abbrev pub sync_push : Settings → Items → Action D Sent
    sync_push settings payload =
        request settings "POST" ("/api/v1/gateways/" & settings.gateway_code & "/sync/push")
          (some (array payload))

    abbrev pub post_events : Settings → Fields → Action D Sent
    post_events settings payload =
        request settings "POST" ("/api/v1/gateways/" & settings.gateway_code & "/events")
          (some (object payload))

    abbrev pub report_tag_status : Settings → Fields → Action D Sent
    report_tag_status settings payload =
        request settings "POST" "/api/v1/tags/status-report" (some (object payload))

    abbrev pub pickup_confirm : Settings → Fields → Action D Sent
    pickup_confirm settings payload =
        request settings "POST" "/api/v1/pickup/confirm" (some (object payload))
