-- ===== src/Gateway/Client/Tests.antt =====
-- An example of a heartbeat that the server accepts.
use smart_parcel_station.Prelude.{
  ◌+◌, String, none, some, [], ◌≡◌, ◌≢◌, refl, inr, filter, any, str_eq, str_eq_iff, false, true,
  arith,
}
use package.text.Mathlib.TextLemmas.{append-ne-nil_of_right_ne-nil}
use smart_parcel_station.Prelude.Int.{pos}
use smart_parcel_station.Text.{upper, ◌&◌}
use smart_parcel_station.Json.{Json, object, text, end, entry}
use smart_parcel_station.Session.{ok, Session, opened}
use smart_parcel_station.Runtime.{Runtime}
use smart_parcel_station.Server.Models.{Db}
use smart_parcel_station.Server.Config as ServerConfig
use smart_parcel_station.Server.Auth.{Request, same_nonce, verify_gateway_request}
use smart_parcel_station.Server.Auth.Accept.{recent, with_nonce}
use smart_parcel_station.Server.Examples.{example_gateway, example_db}
use smart_parcel_station.Gateway.Config.{Settings, default_settings}
use smart_parcel_station.Gateway.Entities.{LocalDb}
use smart_parcel_station.Gateway.Examples.{example_outside, empty_db}
use smart_parcel_station.Gateway.Client.{Sent, build_gateway_headers, request, heartbeat}
use smart_parcel_station.Gateway.Client.Accepted.{
  Agrees, IsRegistered, read_headers, sent_at, verify_gateway_request-request,
}

-- hashes and random texts that are not empty, and the server's clock, 5 seconds ahead
abbrev gateway_runtime : Runtime
gateway_runtime = record {
  clock = λ n. 1000 + n;
  uuid_hex = λ n. "uuid";
  token_urlsafe = λ n size. "token";
  token_hex = λ n size. "hex";
  sha256 = λ s. s & "#";
  hmac_sha256 = λ key message. (key & message) & "=";
  pbkdf2_sha256 = λ password salt rounds. password;
  isoformat = λ t. "";
  repr = λ value. "";
  next_id = λ ids. 1;
}

abbrev server_runtime : Runtime
server_runtime = record gateway_runtime { clock = λ n. 1005 + n }

abbrev IsFull : String → Type 0
IsFull s = s ≢ ""

full : (s : String) → str_eq s "" ≡ false → IsFull s
full s h e = ground (arith, h, (str_eq_iff s "").1 e)

IsFull-uuid : IsFull "uuid"
unfolding str_eq
IsFull-uuid = full "uuid" refl

IsFull-sharp : IsFull "#"
unfolding str_eq
IsFull-sharp = full "#" refl

IsFull-equals : IsFull "="
unfolding str_eq
IsFull-equals = full "=" refl

same_hashes : Agrees gateway_runtime server_runtime
same_hashes = record {
  sha = λ s. refl;
  hmac = λ key s. refl;
  sha-full = λ s h. append-ne-nil_of_right_ne-nil s IsFull-sharp h;
  hmac-full = λ key s h. append-ne-nil_of_right_ne-nil (key & s) IsFull-equals h;
  uuid-full = λ n h. IsFull-uuid h;
}

abbrev settings : Settings
settings = record default_settings { gateway_code = "GW1"; gateway_secret = "secret" }

abbrev start : Session LocalDb
start = opened empty_db 0

abbrev ping : Json
ping = object (entry "gateway_code" (text "GW1") (entry "status" (text "ONLINE") end))

abbrev sent : Sent
sent =
    sent_at gateway_runtime server_runtime example_outside settings ServerConfig.default_settings
      "POST" "/api/v1/gateways/heartbeat" (some ping) 1000 "uuid"

abbrev arrived : Request
arrived = record {
  method = "POST";
  path = "/api/v1/gateways/heartbeat";
  client_host = none;
  body = sent.body;
}

abbrev server : Session Db
server = opened (example_db []) 0

registered :
    IsRegistered gateway_runtime server_runtime example_outside settings
      ServerConfig.default_settings
      (example_gateway 1 "GW1")
      server.work
unfolding str_eq filter
registered = record { coded = full "GW1" refl; listed = refl; secret = refl; enabled = inr refl }

ping-sent :
    heartbeat gateway_runtime example_outside settings start ≡ (ok sent, record start { draws = 2 })
unfolding request build_gateway_headers upper str_eq
ping-sent = refl

no_nonces :
    any (same_nonce server_runtime 1 sent.headers.x_gateway_nonce) (
      recent server_runtime ServerConfig.default_settings arrived
        (read_headers sent.headers)
        1006
        ServerConfig.default_settings.gateway_signature_tolerance_seconds
        server.work.gateway_nonces)
    ≡ false
unfolding any filter
no_nonces = refl

post_has_body : upper "POST" ≡ "GET" → some ping ≡ none
unfolding upper str_eq
post_has_body h = absurd (full_get ((str_eq_iff (upper "POST") "GET").1 h))
  where
    full_get : str_eq (upper "POST") "GET" ≢ true
    full_get e = ground (arith, e)

verify_gateway_request-request_example :
    verify_gateway_request server_runtime ServerConfig.default_settings arrived
      (read_headers sent.headers)
      (some "GW1")
      server
    ≡ (
      ok (example_gateway 1 "GW1"),
      with_nonce server_runtime ServerConfig.default_settings arrived
          (read_headers sent.headers)
          (example_gateway 1 "GW1")
          (pos 1000)
          (record server { draws = 1 }),
    )
verify_gateway_request-request_example =
    verify_gateway_request-request gateway_runtime server_runtime example_outside settings
      ServerConfig.default_settings "POST" "/api/v1/gateways/heartbeat" (some ping) start arrived
      (example_gateway 1 "GW1") server same_hashes registered ping-sent post_has_body (omega arith)
      (record { method = refl; path = refl; body = refl }) no_nonces
