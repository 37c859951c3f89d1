-- ===== src/Gateway/LocalAuth/Tests.antt =====
-- Examples of the checks of the local API.
use smart_parcel_station.Prelude.{
  String, true, false, none, some, [], ◌≡◌, ◌≢◌, ◌⊎◌, refl, str_eq, str_eq_iff, any, arith,
}
use smart_parcel_station.Text.{◌&◌, strip, str_of, is_ascii, upper}
use smart_parcel_station.Session.{Result, ok, Session, opened}
use smart_parcel_station.Gateway.Config.{Settings, default_settings, is_bound, is_unbound}
use smart_parcel_station.Gateway.Entities.{LocalDb}
use smart_parcel_station.Gateway.Examples.{empty_db}
use smart_parcel_station.Server.Examples.{example_runtime}
use smart_parcel_station.Gateway.LocalAuth.{
  LocalRequest, ReaderAuth, session_access, new_session, generate_local_session_token, add_session,
  validate_local_session, validate_gate_reader_auth, admit_reader,
}
use smart_parcel_station.Gateway.LocalAuth.Allowed.{
  Outcome, validate_local_session-Outcome, validate_gate_reader_auth-ok,
}
use smart_parcel_station.Gateway.LocalAuth.Issued.{Presents, validate_local_session-generated}

abbrev settings : Settings
settings = record default_settings { binding_status = "BOUND"; gateway_secret = "secret" }

abbrev request : LocalRequest
request = record {
  path = "/local/tags";
  client_host = some "10.0.0.9";
  authorization = some ("Bearer " & "token0");
  x_gate_reader_id = some "GATE01";
  x_gate_reader_token = some "change-this-reader-token";
}

validate_local_session-Outcome_example :
    Outcome example_runtime settings request
      (opened empty_db 0)
      (validate_local_session example_runtime settings request (opened empty_db 0))
validate_local_session-Outcome_example =
    validate_local_session-Outcome example_runtime settings request (opened empty_db 0)

bound : is_unbound settings ≡ false
unfolding is_unbound is_bound upper str_eq
bound = refl

abbrev issued : Result String × Session LocalDb
issued = generate_local_session_token example_runtime settings "operator" none (opened empty_db 0)

issued-ok : issued ≡ (ok "token0", issued.1)
unfolding generate_local_session_token add_session any str_of
issued-ok = refl

no_sessions :
    any
      (λ s.
        str_eq s.session_token_hash (example_runtime.sha256 (example_runtime.token_urlsafe 0 32)))
      empty_db.local_api_sessions
    ≡ false
unfolding any
no_sessions = refl

token_full : str_eq "token0" "" ≢ true
unfolding str_eq
token_full e = ground (arith, e)

tight : strip "token0" ≡ "token0"
unfolding strip
tight = refl

presents : Presents example_runtime settings "token0" request
unfolding any
presents = record { guarded = refl; closed = refl; header = refl }

validate_local_session-generated_example :
    (validate_local_session example_runtime settings request (opened issued.1.saved 100)).0
    ≡ ok (
        session_access "operator" (
          str_of
            (new_session example_runtime settings "operator" none "token0"
              (example_runtime.clock 1)
              []).id))
validate_local_session-generated_example =
    validate_local_session-generated example_runtime settings "operator" none empty_db 0 100 request
      bound no_sessions issued-ok (λ h. token_full ((str_eq_iff "token0" "").1 h)) tight presents
      (omega arith)

abbrev reader : Result ReaderAuth × Session LocalDb
reader = validate_gate_reader_auth example_runtime settings request (opened empty_db 0)

reader-ok : reader ≡ (ok (record { authenticated = true; reader_id = "GATE01" }), opened empty_db 0)
unfolding validate_gate_reader_auth is_unbound is_bound upper str_eq is_ascii admit_reader
reader-ok = refl

validate_gate_reader_auth-ok_example :
    (is_unbound settings ≡ false)
    × (true ≡ settings.gate_reader_auth_enabled)
    × ((true ≡ false)
        ⊎ (("GATE01" ≡ settings.gate_reader_id)
            × (request.x_gate_reader_token ≡ some settings.gate_reader_token)
            × (settings.gate_reader_token ≢ "")))
    × (opened empty_db 0 ≡ opened empty_db 0)
validate_gate_reader_auth-ok_example =
    validate_gate_reader_auth-ok example_runtime settings request (opened empty_db 0) reader-ok
