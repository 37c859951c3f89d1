-- ===== src/Server/Provisioning.antt =====
-- Provisioning of gateways by the staff: smartparcel-server/app/services/services.py,
-- `_auto_gateway_code` to `confirm_gateway_provisioning`. What follows the last commit of a request is
-- never stored.
pub mod Issued
mod Tests
use smart_parcel_station.Prelude.{
  ℕ, String, Bool, true, false, not, ◌&&◌, ◌||◌, Option, none, some, List, [], ◌∷◌, ◌++◌, map,
  str_eq, opt_is, is_empty, is_present, or_empty, ◌==◌, leb, if◌then◌else◌, filter, update_where,
}
use Prim.Native.String
use Prim.Native.Char.{code}
use smart_parcel_station.Text.{◌&◌, upper, strip, str_of}
use smart_parcel_station.Json.{number, text, end, entry}
use smart_parcel_station.Prelude.Int.{pos}
use smart_parcel_station.Session.{
  http, Action, pure, gets, draw, modify, commit, raise_if, one_or_none, ◌>>=◌, ◌>>◌,
}
use smart_parcel_station.Runtime.{Runtime}
use smart_parcel_station.Server.Enums.{UserRole, GatewayFactoryDeviceStatus}
use smart_parcel_station.Server.Enums.Values.{gateway_factory_device_status_value}
use smart_parcel_station.Server.Models.{
  Db, User, Gateway, GatewayRegistrationToken, GatewayFactoryDevice,
}
use smart_parcel_station.Server.Config.{Settings}
use smart_parcel_station.Server.Auth.{record_security_audit}
use smart_parcel_station.Server.Registration.{
  is_barred, get_station, TokenRequest, create_gateway_registration_token,
}

-- in `{BOUND, ONLINE}`
abbrev pub is_taken : GatewayFactoryDeviceStatus → Bool
is_taken GatewayFactoryDeviceStatus.bound = true
is_taken GatewayFactoryDeviceStatus.online = true
is_taken _ = false

abbrev pub is_staff : UserRole → Bool
is_staff UserRole.staff = true
is_staff _ = false

-- a member of the staff at another station
abbrev pub is_foreign : User → ℕ → Bool
is_foreign user station_id = is_staff user.role && not (opt_is user.station_id station_id)

-- every character is in `[A-Z0-9]`
all_code : String → Bool
all_code String.[] = true
all_code (String.◌∷◌ c s) =
    (leb 65 (code c) && leb (code c) 90 || leb 48 (code c) && leb (code c) 57) && all_code s

-- `re.search(r'([A-Z0-9]{4,8})$', s)`, of a text that does not end in a line break: the longest end
unfoldable pub code_suffix : String → Option String
unfolding all_code
code_suffix String.[] = none
code_suffix (String.◌∷◌ c s) =
    let rest = code_suffix s in
    if leb 4 (String.len (String.◌∷◌ c s))
      && leb (String.len (String.◌∷◌ c s)) 8
      && all_code (String.◌∷◌ c s)
    then some (String.◌∷◌ c s)
    else rest

-- `value or None`
abbrev pub given : Option String → Option String
given o = if is_present o then o else none

-- `gateway.status in ['ACTIVE', 'ONLINE']`
abbrev pub is_running : Gateway → Bool
is_running g = str_eq g.status "ACTIVE" || str_eq g.status "ONLINE"

abbrev pub factory_code_of : String → String
factory_code_of code = upper (strip code)

pub record PrepareRequest : Type 0 where
  pub gateway_factory_code : String
  pub station_id : ℕ
  pub requested_gateway_code : Option String
  pub gateway_device_id : Option String
  pub gateway_serial : Option String

-- the answer of `prepare_gateway_provisioning`
pub record Prepared : Type 0 where
  pub server_base_url : String
  pub gateway_code : String
  pub station_id : String
  pub gateway_factory_code : String
  pub registration_token : String
  pub mqtt_host : Option String
  pub mqtt_port : Option ℕ
  pub expires_at : ℕ

-- `re.match(pattern, s)` is `matches pattern s`
module _ (rt : Runtime) (settings : Settings) (matches : String → String → Bool) where
  -- by the suffix that is found
  abbrev pub code_with : Option String → Action Db String
  code_with (some suffix) = pure ("GW" & suffix)
  code_with none =
      draw (λ n. rt.token_hex n 4) >>= λ hex. pure ("GW" & String.slice (upper hex) 0 8)

  unfoldable pub auto_gateway_code : String → Action Db String
  auto_gateway_code factory_code = code_with (code_suffix factory_code)

  -- the row of a device that is new
  abbrev pub new_device :
      PrepareRequest → String → ℕ → List GatewayFactoryDevice → GatewayFactoryDevice
  new_device req factory_code now rows = record {
    id = rt.next_id (map (λ f. f.id) rows);
    gateway_factory_code = factory_code;
    gateway_device_id = given req.gateway_device_id;
    gateway_serial = given req.gateway_serial;
    gateway_code = none;
    station_id = none;
    bound_gateway_id = none;
    status = GatewayFactoryDeviceStatus.pending_bind;
    first_seen_at = some now;
    last_seen_at = some now;
    bind_requested_by_user_id = none;
    bind_requested_at = none;
    bound_at = none;
    disabled_reason = none;
  }

  -- the device that is there, unless it may not be bound, or a new one
  unfoldable pub resolve_device :
      PrepareRequest → String → ℕ → Option GatewayFactoryDevice → Action Db GatewayFactoryDevice
  resolve_device req factory_code now (some device) = do
    raise_if (is_barred device.status) (
        http 409 ("Gateway factory device is " & gateway_factory_device_status_value device.status))
    raise_if (is_taken device.status) (http 409 "Gateway factory code is already bound")
    pure device
  resolve_device req factory_code now none = do
    rows ← gets (λ db. db.gateway_factory_devices)
    let device = new_device req factory_code now rows
    modify (λ db. record db { gateway_factory_devices = db.gateway_factory_devices ++ device ∷ [] })
    record_security_audit rt "gateway_factory_device_first_seen" none none none none
        (entry "gateway_factory_code" (text factory_code) end)
    pure device

  -- `(requested_gateway_code or '').strip()`, or else a code of the device
  unfoldable pub wanted_code : PrepareRequest → String → Action Db String
  wanted_code req factory_code =
      let requested = strip (or_empty req.requested_gateway_code) in
      if is_empty requested then auto_gateway_code factory_code else pure requested

  -- another code where a gateway that runs has this one
  unfoldable pub free_code : String → Option Gateway → Action Db String
  free_code gateway_code none = pure gateway_code
  free_code gateway_code (some gateway) = draw (λ n. rt.token_hex n 2) >>= λ hex.
      pure (gateway_code & "-" & String.slice (upper hex) 0 4)

  -- the assignments to the device
  abbrev pub requested_by :
      User → PrepareRequest → String → ℕ → GatewayFactoryDevice → GatewayFactoryDevice
  requested_by user req gateway_code now device = record device {
    status = GatewayFactoryDeviceStatus.pending_bind;
    station_id = some req.station_id;
    gateway_code = some gateway_code;
    bind_requested_by_user_id = some user.id;
    bind_requested_at = some now;
    last_seen_at = some now;
    gateway_device_id =
        if is_present req.gateway_device_id
        then req.gateway_device_id
        else device.gateway_device_id;
    gateway_serial =
        if is_present req.gateway_serial then req.gateway_serial else device.gateway_serial;
  }

  abbrev pub token_request : User → PrepareRequest → String → String → TokenRequest
  token_request user req factory_code gateway_code = record {
    gateway_code = gateway_code;
    station_id = req.station_id;
    ttl_seconds = some settings.gateway_registration_token_ttl_seconds;
    created_by_admin_id = none;
    gateway_factory_code = some factory_code;
    gateway_device_id = given req.gateway_device_id;
    gateway_serial = given req.gateway_serial;
    created_by_user_id = some user.id;
  }

  -- the token, the device and the answer
  unfoldable pub issue :
      User → PrepareRequest → String → ℕ → GatewayFactoryDevice → String → Action Db Prepared
  issue user req factory_code now device gateway_code = do
    (token_row, plain_token) ←
        create_gateway_registration_token rt settings
          (token_request user req factory_code gateway_code)
    modify (λ db. record db {
      gateway_factory_devices =
          update_where (λ f. f.id == device.id) (requested_by user req gateway_code now)
            db.gateway_factory_devices;
    })
    commit
    record_security_audit rt "gateway_provisioning_prepare" none none
        (some "/api/v1/gateways/provisioning/prepare") none
        (entry "gateway_factory_code" (text factory_code) (
          entry "gateway_code" (text gateway_code) (
            entry "token_id" (text token_row.token_id)
              (entry "created_by_user_id" (number (pos user.id)) end))))
    pure (record {
      server_base_url = settings.public_base_url;
      gateway_code = gateway_code;
      station_id = str_of req.station_id;
      gateway_factory_code = factory_code;
      registration_token = plain_token;
      mqtt_host = if settings.mqtt_enabled then some settings.mqtt_host else none;
      mqtt_port = if settings.mqtt_enabled then some settings.mqtt_port else none;
      expires_at = token_row.expires_at;
    })

  -- the tests of the request; returns the time and the device that is found
  unfoldable pub check_request : User → PrepareRequest → Action Db (ℕ × Option GatewayFactoryDevice)
  check_request user req = do
    now ← draw rt.clock
    let factory_code = factory_code_of req.gateway_factory_code
    raise_if (not (matches settings.gateway_factory_code_pattern factory_code)) (
        http 400
          ("gateway_factory_code must match pattern " & settings.gateway_factory_code_pattern))
    get_station req.station_id
    raise_if (is_foreign user req.station_id)
        (http 403 "You can only bind gateways to your own station")
    rows ←
        gets (λ db.
          filter (λ f. str_eq f.gateway_factory_code factory_code) db.gateway_factory_devices)
    found ← one_or_none rows
    pure (now, found)

  -- the code that the gateway gets
  unfoldable pub choose_code : PrepareRequest → String → Action Db String
  choose_code req factory_code = do
    wanted ← wanted_code req factory_code
    rows ← gets (λ db. filter (λ g. str_eq g.gateway_code wanted && is_running g) db.gateways)
    running ← one_or_none rows
    free_code wanted running

  unfoldable pub prepare_gateway_provisioning : User → PrepareRequest → Action Db Prepared
  prepare_gateway_provisioning user req = do
    (now, found) ← check_request user req
    let factory_code = factory_code_of req.gateway_factory_code
    device ← resolve_device req factory_code now found
    gateway_code ← choose_code req factory_code
    issue user req factory_code now device gateway_code

-- the answers of `confirm_gateway_provisioning`: no such device; a device without its gateway, by the
-- status of the device; a gateway that is bound; one that is online; any other status of a gateway
pub data Confirmation : Type 0 where
  unknown_code : Confirmation
  not_activated : String → Confirmation
  awaits_heartbeat : Confirmation
  is_online : Gateway → Confirmation
  in_status : String → Confirmation

-- `gateway.status in ('ACTIVE', 'BOUND')`, and `'ONLINE'`
abbrev confirmation_of : Gateway → Confirmation
confirmation_of g =
    if str_eq g.status "ACTIVE" || str_eq g.status "BOUND"
    then awaits_heartbeat
    else if str_eq g.status "ONLINE"
    then is_online g
    else in_status g.status

-- by the device and the gateway that are found
unfoldable pub confirmation : Option GatewayFactoryDevice → Option Gateway → Confirmation
confirmation none gateway = unknown_code
confirmation (some device) none = not_activated (gateway_factory_device_status_value device.status)
confirmation (some device) (some gateway) = confirmation_of gateway

module _ (rt : Runtime) where
  unfoldable pub confirm_gateway_provisioning : String → String → ℕ → User → Action Db Confirmation
  confirm_gateway_provisioning gateway_factory_code gateway_code station_id user = do
    raise_if (is_foreign user station_id)
        (http 403 "You can only query gateways in your own station")
    let factory_code = factory_code_of gateway_factory_code
    device ←
        one_or_none
          (← gets (λ db.
            filter (λ f. str_eq f.gateway_factory_code factory_code) db.gateway_factory_devices))
    gateway ←
        one_or_none
          (← gets (λ db.
            filter (λ g. str_eq g.gateway_code gateway_code && (g.station_id == station_id))
              db.gateways))
    record_security_audit rt "gateway_provisioning_confirm" none none
        (some "/api/v1/gateways/provisioning/confirm") none
        (entry "gateway_factory_code" (text factory_code) (
          entry "gateway_code" (text gateway_code) (
            entry "station_id" (number (pos station_id))
              (entry "queried_by_user_id" (number (pos user.id)) end))))
    pure (confirmation device gateway)
