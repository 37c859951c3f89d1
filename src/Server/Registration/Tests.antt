-- ===== src/Server/Registration/Tests.antt =====
-- Examples of registration tokens.
use smart_parcel_station.Prelude.{
  String, none, some, List, [], ◌∷◌, ◌≡◌, refl, filter, find_first, any, str_eq, update_where,
}
use smart_parcel_station.Text.{strip, str_of}
use smart_parcel_station.Session.{Error, Result, ok, err, Session, opened}
use smart_parcel_station.Server.Enums.{GatewayRegistrationTokenStatus}
use smart_parcel_station.Server.Models.{Db, Gateway, GatewayRegistrationToken}
use smart_parcel_station.Server.Config.{default_settings}
use smart_parcel_station.Server.Auth.{record_security_audit}
use smart_parcel_station.Server.Registration.{get_station, hash_registration_token}
use smart_parcel_station.Server.Registration.Activation.{
  DeviceInfo, check_token, check_device, find_factory_device, store_activation, finish_activation,
  activate_gateway_registration,
}
use smart_parcel_station.Server.Registration.Once.{
  TokenCall, list_all, revoke, serve_all, activated_once, IsEntitled,
  activate_gateway_registration-ok,
}
use smart_parcel_station.Server.Examples.{example_runtime, example_gateway, example_db}

abbrev token : GatewayRegistrationToken
token = record {
  id = 4;
  token_id = "t4";
  gateway_code = "GW1";
  station_id = 7;
  token_hash = "#ABCD-EFGH";
  expires_at = 1500;
  used_at = none;
  status = GatewayRegistrationTokenStatus.pending;
  created_by_admin_id = none;
  created_by_user_id = none;
  gateway_factory_code = none;
  gateway_device_id = none;
  gateway_serial = none;
}

abbrev db : Db
db = record (example_db []) {
  stations =
      record { id = 7; station_code = "S7"; name = ""; address = ""; status = "ACTIVE" } ∷ [];
  gateway_registration_tokens = token ∷ [];
}

abbrev info : DeviceInfo
info = record { gateway_factory_code = none; gateway_device_id = some "D1"; gateway_serial = none }

abbrev first : Result (Gateway × String) × Session Db
first =
    activate_gateway_registration example_runtime default_settings "GW1" 7 " ABCD-EFGH" info
      (opened db 0)

abbrev gateway : Gateway
gateway = record (example_gateway 1 "GW1") {
  device_secret_hash = "token1";
  status = "ACTIVE";
  last_seen_at = some 1000;
  gateway_device_id = some "D1";
  bound_at = some 1000;
}

first-ok : first ≡ (ok (gateway, "token1"), first.1)
unfolding activate_gateway_registration check_token get_station find_first filter str_eq
    hash_registration_token strip finish_activation check_device find_factory_device
    store_activation any update_where record_security_audit str_of
first-ok = refl

abbrev calls : List TokenCall
calls = revoke 4 ∷ list_all ∷ []

activated_once_example :
    (e : Error) × ((activate_gateway_registration example_runtime default_settings "GW1" 7
        " ABCD-EFGH" info
        (serve_all example_runtime default_settings calls (opened first.1.saved first.1.draws))).0
      ≡ err e)
activated_once_example =
    activated_once example_runtime default_settings calls "GW1" "GW1" 7 7 " ABCD-EFGH" info info db
      0 first-ok

activate_gateway_registration-ok_example :
    ((row : GatewayRegistrationToken) × IsEntitled example_runtime default_settings "GW1" 7
        " ABCD-EFGH" db 1000 row)
    × (gateway.device_secret_hash ≡ "token1")
activate_gateway_registration-ok_example =
    activate_gateway_registration-ok example_runtime default_settings "GW1" 7 " ABCD-EFGH" info db 0
      first-ok
