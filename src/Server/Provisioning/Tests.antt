-- ===== src/Server/Provisioning/Tests.antt =====
-- An example of a preparation.
use smart_parcel_station.Prelude.{
  String, Bool, not, none, some, [], ◌∷◌, ◌≡◌, refl, str_eq, is_empty, any, filter, find_first,
  update_where,
}
use smart_parcel_station.Text.{upper, strip, str_of}
use smart_parcel_station.Session.{Result, ok, Session, opened}
use smart_parcel_station.Server.Enums.{UserRole}
use smart_parcel_station.Server.Models.{Db, User}
use smart_parcel_station.Server.Config.{default_settings}
use smart_parcel_station.Server.Auth.{record_security_audit}
use smart_parcel_station.Server.Registration.{
  get_station, generate_registration_token, registration_token_of,
  create_gateway_registration_token,
}
use smart_parcel_station.Server.Examples.{example_runtime, example_user, example_db}
use smart_parcel_station.Server.Provisioning.{
  PrepareRequest, Prepared, code_suffix, auto_gateway_code, resolve_device, wanted_code, free_code,
  issue, check_request, choose_code, prepare_gateway_provisioning,
}
use smart_parcel_station.Server.Provisioning.Issued.{
  IsPrepared, prepare_gateway_provisioning-IsPrepared,
}

abbrev db : Db
db = record (example_db []) {
  stations =
      record { id = 7; station_code = "S7"; name = ""; address = ""; status = "ACTIVE" } ∷ [];
}

abbrev matches : String → String → Bool
matches pattern s = not (is_empty s)

abbrev request : PrepareRequest
request = record {
  gateway_factory_code = " sps-gw-20260630-0001";
  station_id = 7;
  requested_gateway_code = none;
  gateway_device_id = none;
  gateway_serial = some "S1";
}

abbrev staff : User
staff = record (example_user 2 UserRole.staff) { station_id = some 7 }

abbrev prepared : Result Prepared × Session Db
prepared =
    prepare_gateway_provisioning example_runtime default_settings matches staff request
      (opened db 0)

abbrev answer : Prepared
answer = record {
  server_base_url = "https://example.com";
  gateway_code = "GW0001";
  station_id = "7";
  gateway_factory_code = "SPS-GW-20260630-0001";
  registration_token = "TOKE-N1";
  mqtt_host = some "127.0.0.1";
  mqtt_port = some 1883;
  expires_at = 1601;
}

prepared-ok : prepared ≡ (ok answer, prepared.1)
unfolding prepare_gateway_provisioning check_request upper strip str_eq get_station find_first
    filter resolve_device record_security_audit choose_code wanted_code auto_gateway_code
    code_suffix free_code issue create_gateway_registration_token generate_registration_token
    registration_token_of any update_where str_of
prepared-ok = refl

prepare_gateway_provisioning-IsPrepared_example :
    IsPrepared example_runtime default_settings matches staff request db prepared.1.saved answer
prepare_gateway_provisioning-IsPrepared_example =
    prepare_gateway_provisioning-IsPrepared example_runtime default_settings matches staff request
      db 0 prepared-ok
