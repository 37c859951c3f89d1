-- ===== src/Server/Auth/Tests.antt =====
-- Examples of the check of gateway requests.
use smart_parcel_station.Prelude.{
  ℕ, ◌+◌, String, none, some, [], ◌≡◌, ◌≢◌, inl, inr, refl, filter, any, str_eq, arith,
}
use smart_parcel_station.Prelude.Int.{ℤ, pos}
use smart_parcel_station.Text.{upper, int_of_text}
use smart_parcel_station.Session.{http, ok, err, Session, opened, pure}
use smart_parcel_station.Server.Models.{Db, Gateway}
use smart_parcel_station.Server.Config.{default_settings}
use smart_parcel_station.Server.Auth.{
  Request, Headers, signing_content, verify_gateway_signature, validate_gateway_timestamp,
  remember_gateway_nonce, has_headers, verify_gateway_request,
}
use smart_parcel_station.Server.Auth.Accept.{IsAccepted, with_nonce, verify_gateway_request-ok}
use smart_parcel_station.Server.Auth.Replay.{here, other_request, replay_rejected}
use smart_parcel_station.Server.Auth.Audited.{IsAudited}
use smart_parcel_station.Server.Auth.Refused.{verify_gateway_request-refused}
use smart_parcel_station.Server.Auth.Tick.{replay_at_tick}
use smart_parcel_station.Server.Examples.{
  example_runtime, example_runtime-IsMonotone, example_gateway, example_db,
}

abbrev request : Request
request = record {
  method = "post";
  path = "/api/v1/gateway/heartbeat";
  client_host = none;
  body = "{}";
}

abbrev headers : String → Headers
headers code = record {
  gateway_code = some code;
  timestamp = some "1000";
  nonce = some "n1";
  body_sha256 = some "#{}";
  signature = some "secret:POST\n/api/v1/gateway/heartbeat\n1000\nn1\n#{}";
}

abbrev start : Session Db
start = opened (example_db []) 0

abbrev after : Gateway → Session Db → Session Db
after g s =
    with_nonce example_runtime default_settings request (headers g.gateway_code) g (pos 1000)
      (record s { draws = s.draws + 1 })

accepted :
    verify_gateway_request example_runtime default_settings request
      (headers "GW1")
      (some "GW1")
      start
    ≡ (ok (example_gateway 1 "GW1"), after (example_gateway 1 "GW1") start)
unfolding verify_gateway_request str_eq filter validate_gateway_timestamp int_of_text
    verify_gateway_signature signing_content upper remember_gateway_nonce any
accepted = refl

verify_gateway_request-ok_example :
    (value : ℤ) × IsAccepted example_runtime default_settings request
      (headers "GW1")
      (some "GW1")
      start
      value
      (example_gateway 1 "GW1")
      (after (example_gateway 1 "GW1") start)
verify_gateway_request-ok_example =
    verify_gateway_request-ok example_runtime default_settings request (headers "GW1") (some "GW1")
      start accepted

start-IsAccepted :
    IsAccepted example_runtime default_settings request
      (headers "GW1")
      (some "GW1")
      start
      (pos 1000)
      (example_gateway 1 "GW1")
      (after (example_gateway 1 "GW1") start)
unfolding has_headers str_eq filter int_of_text signing_content upper any
start-IsAccepted = record {
  headers = refl;
  listed = refl;
  named = inr refl;
  enabled = inr refl;
  parsed = refl;
  fresh = omega arith;
  body = refl;
  signed = refl;
  unseen = refl;
  result = refl;
}

-- a request in the name of a gateway that is not known
abbrev stranger : Session Db
stranger =
    (verify_gateway_request example_runtime default_settings request (headers "GW9") none start).1

stranger_refused :
    verify_gateway_request example_runtime default_settings request (headers "GW9") none start
    ≡ (err (http 401 "Gateway not found"), stranger)
unfolding verify_gateway_request has_headers filter str_eq
stranger_refused = refl

verify_gateway_request-refused_example :
    IsAudited example_runtime default_settings request
      (headers "GW9")
      (example_db [])
      401
      "Gateway not found"
      stranger
verify_gateway_request-refused_example =
    verify_gateway_request-refused example_runtime default_settings request (headers "GW9") none
      (example_db []) 0 401 stranger_refused

-- the first request's handler has committed, and another request has been served
abbrev committed : Session Db
committed = record (after (example_gateway 1 "GW1") start) {
  saved = (after (example_gateway 1 "GW1") start).work;
}

abbrev again : ℕ → Session Db
again n = record committed { draws = n }

-- another gateway may use the nonce
accepted_other :
    verify_gateway_request example_runtime default_settings request (headers "GW2") none committed
    ≡ (ok (example_gateway 2 "GW2"), after (example_gateway 2 "GW2") committed)
unfolding verify_gateway_request str_eq filter validate_gateway_timestamp int_of_text
    verify_gateway_signature signing_content upper remember_gateway_nonce any
accepted_other = refl

replay_rejected_example : (example_gateway 2 "GW2").id ≢ (example_gateway 1 "GW1").id
replay_rejected_example =
    replay_rejected example_runtime default_settings request request (headers "GW1") (headers "GW2")
      (some "GW1") none start (after (example_gateway 1 "GW1") start) committed committed
      (after (example_gateway 2 "GW2") committed) (example_gateway 1 "GW1")
      (example_gateway 2 "GW2") example_runtime-IsMonotone accepted refl refl (omega arith)
      (other_request here (pure tt) (λ s. inl refl) (λ s. omega arith)) refl refl refl
      accepted_other

replay_at_tick_example :
    (u' : Session Db) × (verify_gateway_request example_runtime default_settings request
        (headers "GW1")
        (some "GW1")
        (again 601)
      ≡ (ok (example_gateway 1 "GW1"), u'))
unfolding int_of_text
replay_at_tick_example =
    replay_at_tick example_runtime default_settings request (headers "GW1") (some "GW1") start
      (after (example_gateway 1 "GW1") start) (again 601) (example_gateway 1 "GW1") (pos 1000)
      accepted refl refl refl (omega arith) refl
