-- ===== src/Server/Registration/Activation.antt =====
-- `activate_gateway_registration` of smartparcel-server/app/services/services.py.
use smart_parcel_station.Prelude.{
  ℕ, String, Bool, true, false, not, ◌&&◌, ◌||◌, Option, none, some, List, [], ◌∷◌, ◌++◌, map,
  str_eq, opt_str_is, is_present, or_empty, ◌==◌, if◌then◌else◌, filter, any, update_where,
}
use smart_parcel_station.Text.{upper}
use smart_parcel_station.Json.{end, entry, text, opt_text}
use smart_parcel_station.Session.{
  http, crash, Action, pure, raise, gets, draw, modify, commit, or_raise, raise_if, one_or_none,
  ◌>>=◌, ◌>>◌,
}
use smart_parcel_station.Runtime.{Runtime}
use smart_parcel_station.Server.Enums.{GatewayRegistrationTokenStatus, GatewayFactoryDeviceStatus}
use smart_parcel_station.Server.Models.{Db, Gateway, GatewayRegistrationToken, GatewayFactoryDevice}
use smart_parcel_station.Server.Config.{Settings}
use smart_parcel_station.Server.Auth.{record_security_audit}
use smart_parcel_station.Server.Registration.{
  is_revoked, is_used, is_status_expired, is_barred, is_expired, get_station, set_token,
  hash_registration_token,
}

-- the entries of `device_info` that are read
pub record DeviceInfo : Type 0 where
  pub gateway_factory_code : Option String
  pub gateway_device_id : Option String
  pub gateway_serial : Option String

-- `a or b or None`
abbrev pub first_present : Option String → Option String → Option String
first_present a b = if is_present a then a else if is_present b then b else none

abbrev pub expired_token : GatewayRegistrationToken → GatewayRegistrationToken
expired_token row = record row { status = GatewayRegistrationTokenStatus.expired }

abbrev pub used_token : ℕ → GatewayRegistrationToken → GatewayRegistrationToken
used_token now row = record row { status = GatewayRegistrationTokenStatus.used; used_at = some now }

-- the branch of an expired token, which is committed
abbrev pub expire_token : GatewayRegistrationToken → Bool → Action Db (Unit {0})
expire_token row false = pure tt
expire_token row true = do
  modify (set_token (λ r. r.id == row.id) expired_token)
  commit
  raise (http 401 "Registration token expired")

-- the comparison of the device with the token
unfoldable pub check_device : GatewayRegistrationToken → DeviceInfo → Action Db (Unit {0})
check_device row info = do
  raise_if (is_present row.gateway_factory_code && not (is_present info.gateway_factory_code))
      (http 401 "gateway_factory_code required in device_info")
  raise_if
      (is_present row.gateway_factory_code
        && not (
            str_eq (upper (or_empty row.gateway_factory_code))
              (upper (or_empty info.gateway_factory_code))))
      (http 401 "gateway_factory_code does not match registration token")
  raise_if
      (is_present row.gateway_device_id
        && is_present info.gateway_device_id
        && not (str_eq (or_empty row.gateway_device_id) (or_empty info.gateway_device_id)))
      (http 401 "gateway_device_id does not match registration token")

-- the factory device, where there is a factory code
unfoldable pub find_factory_device : Option String → Action Db (Option GatewayFactoryDevice)
find_factory_device none = pure none
find_factory_device (some factory_code) = do
  rows ←
      gets
        (λ db. filter (λ f. str_eq f.gateway_factory_code factory_code) db.gateway_factory_devices)
  one_or_none rows

abbrev is_barred_device : Option GatewayFactoryDevice → Bool
is_barred_device none = false
is_barred_device (some device) = is_barred device.status

module _ (rt : Runtime) (settings : Settings) where
  -- the tests of the token, up to its expiry; returns the row and the time
  unfoldable pub check_token : String → ℕ → String → Action Db (GatewayRegistrationToken × ℕ)
  check_token gateway_code station_id registration_token = do
    get_station station_id
    rows ← gets (λ db.
        filter (λ r. str_eq r.token_hash (hash_registration_token rt settings registration_token))
          db.gateway_registration_tokens)
    found ← one_or_none rows
    now ← draw rt.clock
    row ← or_raise found (http 401 "Invalid registration token")
    raise_if (not (str_eq row.gateway_code gateway_code) || not (row.station_id == station_id))
        (http 401 "Registration token does not match gateway")
    raise_if (is_revoked row.status) (http 401 "Registration token revoked")
    raise_if (is_used row.status) (http 401 "Registration token already used")
    expire_token row (is_status_expired row.status || is_expired row.expires_at now)
    pure (row, now)

  -- the assignments to the gateway
  abbrev pub activated :
      ℕ → String → Option String → Option String → Option String → ℕ → Gateway → Gateway
  activated station_id secret factory_code device_id serial now gateway = record gateway {
    station_id = station_id;
    device_secret_hash = secret;
    status = "ACTIVE";
    gateway_factory_code = factory_code;
    gateway_device_id = device_id;
    gateway_serial = serial;
    bound_at = some now;
    last_seen_at = some now;
  }

  -- the gateway that is written, with the rows after it
  abbrev pub put_gateway :
      String → (Gateway → Gateway) → List Gateway → Option Gateway → Gateway × List Gateway
  put_gateway gateway_code f gateways (some gateway) =
      (f gateway, update_where (λ g. g.id == gateway.id) f gateways)
  put_gateway gateway_code f gateways none =
      let fresh : Gateway = f (record {
        id = rt.next_id (map (λ g. g.id) gateways);
        gateway_code = gateway_code;
        station_id = 0;
        device_secret_hash = "";
        status = "";
        last_seen_at = none;
        gateway_factory_code = none;
        gateway_device_id = none;
        gateway_serial = none;
        bound_at = none;
      }) in
      (fresh, gateways ++ fresh ∷ [])

  -- another gateway has this factory code
  abbrev takes_factory_code : Gateway → Gateway → Bool
  takes_factory_code gateway g =
      not (g.id == gateway.id)
      && is_present gateway.gateway_factory_code
      && opt_str_is g.gateway_factory_code (or_empty gateway.gateway_factory_code)

  abbrev bind_device :
      ℕ
      → ℕ
      → String
      → ℕ
      → Option GatewayFactoryDevice
      → List GatewayFactoryDevice
      → List GatewayFactoryDevice
  bind_device now gateway_id gateway_code station_id none devices = devices
  bind_device now gateway_id gateway_code station_id (some device) devices =
      update_where (λ f. f.id == device.id)
        (λ f. record f {
          status = GatewayFactoryDeviceStatus.bound;
          bound_gateway_id = some gateway_id;
          gateway_code = some gateway_code;
          station_id = some station_id;
          bound_at = some now;
          last_seen_at = some now;
        })
        devices

  -- the writes, the commit and the audit row that follows it
  unfoldable pub store_activation :
      String
      → ℕ
      → DeviceInfo
      → GatewayRegistrationToken
      → ℕ
      → Option String
      → Option GatewayFactoryDevice
      → Action Db (Gateway × String)
  store_activation gateway_code station_id info row now factory_code device = do
    secret ← draw (λ n. rt.token_urlsafe n settings.gateway_secret_bytes)
    existing ←
        one_or_none (← gets (λ db. filter (λ g. str_eq g.gateway_code gateway_code) db.gateways))
    (gateway, gateways) ← gets (λ db.
        put_gateway gateway_code
          (activated station_id secret factory_code
            (first_present info.gateway_device_id row.gateway_device_id)
            (first_present info.gateway_serial row.gateway_serial) now)
          db.gateways existing)
    raise_if (any (takes_factory_code gateway) gateways) (crash "IntegrityError")
    modify (λ db. record db {
      gateways = gateways;
      gateway_factory_devices =
          bind_device now gateway.id gateway_code station_id device db.gateway_factory_devices;
    })
    modify (set_token (λ r. r.id == row.id) (used_token now))
    commit
    record_security_audit rt "gateway_bootstrap_activate_success" none (some gateway_code)
        (some "/api/v1/gateways/bootstrap/activate") none
        (entry "gateway_factory_code" (opt_text factory_code)
          (entry "token_id" (text row.token_id) end))
    pure (gateway, secret)

  -- what follows the tests of the token
  unfoldable pub finish_activation :
      String → ℕ → DeviceInfo → GatewayRegistrationToken → ℕ → Action Db (Gateway × String)
  finish_activation gateway_code station_id info row now = do
    check_device row info
    let factory_code = first_present row.gateway_factory_code info.gateway_factory_code
    device ← find_factory_device factory_code
    raise_if (is_barred_device device) (http 401 "Gateway factory device is disabled or revoked")
    store_activation gateway_code station_id info row now factory_code device

  unfoldable pub activate_gateway_registration :
      String → ℕ → String → DeviceInfo → Action Db (Gateway × String)
  activate_gateway_registration gateway_code station_id registration_token info = do
    (row, now) ← check_token gateway_code station_id registration_token
    finish_activation gateway_code station_id info row now
