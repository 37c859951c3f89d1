-- ===== src/Server/Examples.antt =====
-- Concrete values for the examples of the server: a runtime, two gateways of one station, users, cards.
use smart_parcel_station.Prelude.{
  ℕ, suc, ◌+◌, ◌/◌, ◌<◌, String, true, false, none, some, List, [], ◌∷◌, ◌≡◌, any, ◌==◌, arith,
}
use smart_parcel_station.Text.{◌&◌, str_of}
use smart_parcel_station.Runtime.{Runtime, IsMonotone, AssignsFresh}
use smart_parcel_station.Server.Enums.{
  UserRole, AccessCredentialType, AccessCredentialStatus, ParcelStatus, ParcelOrigin,
  ParcelSyncStatus, ParcelTagBindingStatus, TagStatus,
}
use smart_parcel_station.Server.Models.{Db, User, Gateway, UserAccessCredential, Parcel}

abbrev total : List ℕ → ℕ
total [] = 0
total (i ∷ is) = i + total is

-- a clock that ticks at every second draw, and hashes that can be read
abbrev pub example_runtime : Runtime
example_runtime = record {
  clock = λ n. 1000 + n / 2;
  uuid_hex = λ n. "uuid" & str_of n;
  token_urlsafe = λ n size. "token" & str_of n;
  token_hex = λ n size. "hex" & str_of n;
  sha256 = λ s. "#" & s;
  hmac_sha256 = λ key message. key & ":" & message;
  pbkdf2_sha256 = λ password salt rounds. salt & password;
  isoformat = λ t. str_of t;
  repr = λ value. "{}";
  next_id = λ ids. suc (total ids);
}

above : (k : ℕ) (is : List ℕ) → total is < k → any (λ i. i == k) is ≡ false
unfolding any
above k [] h = ground arith
above k (i ∷ is) h = ground (arith, above k is)

pub example_runtime-AssignsFresh : AssignsFresh example_runtime
example_runtime-AssignsFresh ids = above (suc (total ids)) ids (omega arith)

pub example_runtime-IsMonotone : IsMonotone example_runtime
example_runtime-IsMonotone m n le = omega arith

abbrev pub example_gateway : ℕ → String → Gateway
example_gateway id code = record {
  id = id;
  gateway_code = code;
  station_id = 7;
  device_secret_hash = "secret";
  status = "ONLINE";
  last_seen_at = none;
  gateway_factory_code = none;
  gateway_device_id = none;
  gateway_serial = none;
  bound_at = none;
}

abbrev pub example_user : ℕ → UserRole → User
example_user id role = record {
  id = id;
  username = some ("user" & str_of id);
  password_hash = none;
  openid = none;
  phone = none;
  display_name = "";
  role = role;
  station_id = some 7;
  pickup_level = "NORMAL";
  trusted_pickup_enabled = false;
  is_active = true;
}

abbrev pub example_card : ℕ → String → AccessCredentialStatus → UserAccessCredential
example_card id value status = record {
  id = id;
  user_id = 1;
  station_id = 7;
  credential_type = AccessCredentialType.card_uid;
  credential_value = value;
  credential_hash = none;
  status = status;
  replaced_by_id = none;
  lost_reported_at = none;
  replaced_at = none;
  disabled_at = none;
  reason = none;
  created_by_user_id = none;
  created_by_admin_id = none;
}

abbrev pub example_db : List UserAccessCredential → Db
example_db cards = record {
  users = example_user 1 UserRole.user ∷ example_user 2 UserRole.staff ∷ [];
  user_access_credentials = cards;
  stations = [];
  gateways = example_gateway 1 "GW1" ∷ example_gateway 2 "GW2" ∷ [];
  gateway_nonces = [];
  gateway_registration_tokens = [];
  parcels = [];
  tags = [];
  parcel_tag_bindings = [];
  pickup_events = [];
  gateway_sync_events = [];
  notifications = [];
  security_audit_events = [];
  gateway_factory_devices = [];
}

abbrev pub example_parcel : Parcel
example_parcel = record {
  id = 5;
  parcel_code = "P5";
  pickup_code = none;
  receiver_user_id = some 1;
  receiver_phone = none;
  receiver_name_masked = none;
  shelf_code = none;
  station_id = 7;
  status = ParcelStatus.waiting_pickup;
  origin = ParcelOrigin.server_manual;
  sync_status = ParcelSyncStatus.synced;
  created_by_admin_id = none;
}

-- a parcel that waits, bound to a tag
abbrev pub stocked_db : Db
stocked_db = record (example_db []) {
  parcels = example_parcel ∷ [];
  tags =
      record {
        id = 3;
        tag_id = "T3";
        encrypted_token = "tok";
        station_id = 7;
        status = TagStatus.idle;
        battery_level = none;
        last_seen_at = none;
      }
      ∷ [];
  parcel_tag_bindings =
      record {
        id = 2;
        pickup_binding_id = "B2";
        parcel_id = 5;
        tag_id = 3;
        station_id = 7;
        status = ParcelTagBindingStatus.active;
      }
      ∷ [];
}
